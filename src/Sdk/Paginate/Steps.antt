-- ===== src/Sdk/Paginate/Steps.antt =====
-- `Paginate` of sdk/go/render.go: one round of its loop.
use openussd.Prelude.{
  ℕ, zero, suc, ◌≤◌, ◌<◌, ◌≡◌, ◌≢◌, refl, ◌∙◌, ◌⊎◌, inl, inr, true, false, ◌&&◌, ◌||◌, some, List,
  [], ◌∷◌, leb, ◌==◌, length, take, arith, Bool-cases, Option-cases, take-take, take_all,
  length-take, min, leb→le, ==→eq, ==→ne, or-eq-true, or-eq-false, and-eq-true, ◌/◌, subst,
}
use openussd.Strings.{Text, is_empty, trim_right}
use openussd.Strings.Trim.{trim_right-take}
use openussd.Canonical.Encoding.Fits.{fits_with, fits_with-IsLighter, IsLighter-take}
use openussd.Sdk.Bisect.{longest-IsEdge}
use openussd.Sdk.Shrink.{max_screen}
use openussd.Sdk.Paginate.{
  prefix_fits, fit_runes, last_index, break_from, separators, break_point, cut_page, PageStep, stop,
  last, more, page_step,
}

pub prefix_fits-IsDownward :
    (s : Text) (reserve k n : ℕ)
    → k ≤ n
    → prefix_fits s reserve n ≡ true
    → prefix_fits s reserve k ≡ true
prefix_fits-IsDownward s reserve k n h f =
    fits_with-IsLighter reserve (take k s) (take n s) (IsLighter-take k n s h) f

pub fit_runes-le : (s : Text) (reserve : ℕ) → fit_runes s reserve ≤ length s
unfolding fit_runes
fit_runes-le s reserve =
    omega (arith, (longest-IsEdge (prefix_fits s reserve) (min (length s) max_screen)).high)

pub fit_runes_fits :
    (s : Text) (reserve : ℕ)
    → fit_runes s reserve ≢ 0
    → prefix_fits s reserve (fit_runes s reserve) ≡ true
unfolding fit_runes
fit_runes_fits s reserve h =
    elim (longest-IsEdge (prefix_fits s reserve) (min (length s) max_screen)).passes [
      | inl nothing ↦ absurd (h nothing)
      | inr p ↦ p
    ]

last_index-le : (s sep : Text) (i : ℕ) → last_index s sep ≡ some i → i ≤ length s
unfolding last_index
last_index-le [] sep i e = ground arith
last_index-le (c ∷ s) sep i e = elim (Option-cases (last_index s sep)) [
  | inl miss ↦ ground arith
  | inr (j, hit) ↦ let inner = last_index-le s sep j hit in ground arith
]

break_from-le : (s : Text) (floor : ℕ) (seps : List Text) → break_from s floor seps ≤ length s
unfolding break_from
break_from-le s floor [] = omega arith
break_from-le s floor (sep ∷ seps) = elim (Option-cases (last_index s sep)) [
  | inl miss ↦ ground (arith, break_from-le s floor seps)
  | inr (i, hit) ↦ ground (arith, break_from-le s floor seps, last_index-le s sep i hit)
]

break_point-le : (s : Text) → break_point s ≤ length s
unfolding break_point
break_point-le s = break_from-le s (length s / 3) separators

-- A page is a prefix of its window, no longer than what fits and than the runes used up.
pub record IsCut (window : Text) (fit : ℕ) (r : Text × ℕ) : Type 0 where
  pub size : ℕ
  pub page : r.0 ≡ take size window
  pub size_le : size ≤ r.1
  pub used_le : r.1 ≤ fit
  pub progress : 0 < r.1
  pub trimmed : (r.0 ≡ trim_right (take r.1 window)) ⊎ (r.0 ≡ take r.1 window)
  pub not_empty : is_empty r.0 ≡ false

length-pos_of_not_empty : (s : Text) → is_empty s ≡ false → 0 < length s
length-pos_of_not_empty [] h = ground arith
length-pos_of_not_empty (c ∷ s) h = omega arith

not_empty_of_pos : (s : Text) (k : ℕ) → 0 < k → k ≤ length s → is_empty (take k s) ≡ false
not_empty_of_pos s zero h h' = absurd (omega arith)
not_empty_of_pos [] (suc k) h h' = absurd (omega arith)
not_empty_of_pos (c ∷ s) (suc k) h h' = refl

take_zero_empty : (s : Text) (k : ℕ) → is_empty (take k s) ≡ false → 0 < k
take_zero_empty s zero h = ground arith
take_zero_empty s (suc k) h = omega arith

pub cut_page-IsCut :
    (window : Text) (fit : ℕ)
    → 0 < fit
    → fit ≤ length window
    → IsCut window fit (cut_page window fit)
unfolding cut_page
cut_page-IsCut window fit pos h =
    let cut = break_point (take fit window) in
    let cut_le : cut ≤ fit =
      omega (arith, break_point-le (take fit window), length-take fit window) in
    let (k, k_le, e) = trim_right-take (take cut window) in
    let k_cut : k ≤ cut = omega (arith, length-take cut window) in
    let e' : trim_right (take cut window) ≡ take k window = e ∙ take-take k cut window k_cut in
    elim (Bool-cases (is_empty (trim_right (take cut window)))) [
      | inl blank ↦ rw blank (record {
        size = fit;
        page = refl;
        size_le = omega arith;
        used_le = omega arith;
        progress = pos;
        trimmed = inr refl;
        not_empty = not_empty_of_pos window fit pos h;
      })
      | inr full ↦ rw full (record {
        size = k;
        page = e';
        size_le = k_cut;
        used_le = cut_le;
        progress =
            let k_pos = take_zero_empty window k (subst (λ t. is_empty t ≡ false) e' full) in
            omega arith;
        trimmed = inl refl;
        not_empty = full;
      })
    ]

-- What a round decides, with the facts that its branch gives.
pub data Round (rest : Text) (reserve : ℕ) : PageStep → Type 0 where
  stopped :
      (is_empty rest ≡ true) ⊎ (fit_runes (take max_screen rest) reserve ≡ 0)
      → Round rest reserve stop
  finished : fits_with reserve rest ≡ true → is_empty rest ≡ false → Round rest reserve (last rest)
  continued :
      {r : Text × ℕ}
      → IsCut (take max_screen rest) (fit_runes (take max_screen rest) reserve) r
      → fits_with reserve r.0 ≡ true
      → Round rest reserve (more r.0 r.1)

cut_fits :
    (window : Text) (reserve : ℕ) {r : Text × ℕ}
    → fit_runes window reserve ≢ 0
    → IsCut window (fit_runes window reserve) r
    → fits_with reserve r.0 ≡ true
cut_fits window reserve pos c = rw c.page (
    prefix_fits-IsDownward window reserve c.size (fit_runes window reserve)
      (omega (arith, c.size_le, c.used_le)) (fit_runes_fits window reserve pos))

whole_fits :
    (rest : Text) (reserve : ℕ)
    → fit_runes (take max_screen rest) reserve ≢ 0
    → length (take max_screen rest) ≤ fit_runes (take max_screen rest) reserve
    → length rest ≤ length (take max_screen rest)
    → (take max_screen rest ≡ rest) × (fits_with reserve rest ≡ true)
whole_fits rest reserve pos all short =
    let window = take max_screen rest in
    let same : take max_screen rest ≡ rest =
      take_all max_screen rest (omega (arith, length-take max_screen rest)) in
    let full : take (fit_runes window reserve) window ≡ rest = take_all _ window all ∙ same in
    (same, rw (← full) (fit_runes_fits window reserve pos))

pub page_step-Round : (rest : Text) (reserve : ℕ) → Round rest reserve (page_step rest reserve)
unfolding page_step
page_step-Round rest reserve =
    let window = take max_screen rest in
    let fit = fit_runes window reserve in
    elim (Bool-cases (is_empty rest || fit == 0)) [
      | inl nothing ↦ rw nothing (
          stopped (elim (or-eq-true _ _ nothing) [
            | inl blank ↦ inl blank
            | inr none_fits ↦ inr (==→eq fit 0 none_fits)
          ]))
      | inr some_fit ↦
          let (not_blank, not_zero) = or-eq-false (is_empty rest) (fit == 0) some_fit in
          let pos : fit ≢ 0 = ==→ne fit 0 not_zero in
          elim (Bool-cases (leb (length window) fit && leb (length rest) (length window))) [
            | inl whole ↦
                let (all, short) = and-eq-true (leb (length window) fit) _ whole in
                let (same, fits) =
                  whole_fits rest reserve pos (leb→le _ _ all) (leb→le _ _ short) in
                rw (some_fit, whole, same) (finished fits not_blank)
            | inr part ↦
                let c = cut_page-IsCut window fit (omega arith) (fit_runes-le window reserve) in
                rw (some_fit, part) (continued c (cut_fits window reserve pos c))
          ]
    ]
