-- ===== src/Sdk/Shrink/Fits.antt =====
-- `Shrink` of sdk/go/render.go: its search and its result.
use openussd.Prelude.{
  ℕ, zero, suc, ◌+◌, ◌≤◌, ◌<◌, ◌≡◌, ◌≢◌, refl, sym, ◌∙◌, subst, ◌↔◌, length-append, inl, inr, true,
  false, [], ◌∷◌, ◌++◌, leb, ◌==◌, length, take, replicate, if◌then◌else◌, arith, Bool-cases,
  take-take, take_all, length-take, min, append-nil, leb→le,
}
use openussd.Strings.{Text}
use openussd.Canonical.Encoding.{fits_screen, screen_cost, is_basic}
use openussd.Canonical.Encoding.Fits.{
  IsLighter, fits_screen-with, fits_with-IsLighter, IsLighter-refl, IsLighter-nil, IsLighter-append,
  IsLighter-take, length-le-of_fits,
}
use openussd.Sdk.Bisect.{longest-IsEdge, le-longest}
use openussd.Sdk.Truncate.{ellipsis, truncate}
use openussd.Sdk.Truncate.Shape.{truncate-IsMarked, truncate_of_narrow}
use openussd.Sdk.Shrink.{max_screen, fits_marked, shrink_point, shrink}

pub fits_screen-IsLighter :
    (p s : Text) → IsLighter p s → fits_screen s ≡ true → fits_screen p ≡ true
fits_screen-IsLighter p s h f =
    ground (arith, fits_screen-with p, fits_screen-with s, fits_with-IsLighter 0 p s h)

fits_marked-IsDownward :
    (s : Text) (k n : ℕ) → k ≤ n → fits_marked s n ≡ true → fits_marked s k ≡ true
fits_marked-IsDownward s k n h f =
    fits_screen-IsLighter _ _
      (IsLighter-append (take k s) (take n s) ellipsis ellipsis (IsLighter-take k n s h)
        (IsLighter-refl _))
      f

IsLighter-marked : (s : Text) → IsLighter s (s ++ ellipsis)
IsLighter-marked s =
    subst (λ t. IsLighter t (s ++ ellipsis)) (append-nil s)
      (IsLighter-append s s [] ellipsis (IsLighter-refl s) (IsLighter-nil ellipsis))

fits_marked_all : (s : Text) (n : ℕ) → length s ≤ n → fits_marked s n ≡ true → fits_screen s ≡ true
fits_marked_all s n h f =
    fits_screen-IsLighter s (s ++ ellipsis) (IsLighter-marked s) (rw (take_all n s h) at f)

fits_nil : fits_screen [] ≡ true
unfolding fits_screen screen_cost
fits_nil = refl

-- No slice out of range: the search stops before the end of a text that does not fit.
pub shrink_in_range : (s : Text) → fits_screen s ≡ false → shrink_point s < length s
unfolding shrink_point
shrink_in_range [] h = ground (arith, fits_nil)
shrink_in_range (c ∷ s) h =
    let e = longest-IsEdge (fits_marked (c ∷ s)) (min (length (c ∷ s)) max_screen) in
    elim e.passes [
      | inl zero_found ↦ omega arith
      | inr p ↦ elim (Bool-cases (leb (length (c ∷ s)) (shrink_point (c ∷ s)))) [
        | inl long ↦
            let whole = fits_marked_all (c ∷ s) _ (leb→le _ _ long) p in absurd (ground arith)
        | inr short ↦ ground arith
      ]
    ]

dots_fit : (n : ℕ) → n ≤ 3 → fits_screen (replicate n b'.') ≡ true
unfolding fits_screen screen_cost is_basic
dots_fit zero h = refl
dots_fit (suc zero) h = refl
dots_fit (suc (suc zero)) h = refl
dots_fit (suc (suc (suc zero))) h = refl
dots_fit (suc (suc (suc (suc n)))) h = absurd (omega arith)

shrink_point_fits : (s : Text) → shrink_point s ≢ 0 → fits_marked s (shrink_point s) ≡ true
unfolding shrink_point
shrink_point_fits s h = elim (longest-IsEdge (fits_marked s) (min (length s) max_screen)).passes [
  | inl none_found ↦ absurd (h none_found)
  | inr p ↦ p
]

gt→== : (n : ℕ) → 3 < n → (n == 0) ≡ false
gt→== n h = ground arith

length-take_next : (s : Text) (n : ℕ) → n < length s → length (take (n + 1) s) ≡ n + 1
length-take_next s n h = omega (arith, length-take (n + 1) s)

-- A prefix cut to `n` runes fits if `n` runes and the ellipsis do.
truncate_fits :
    (s : Text) (n : ℕ)
    → n < length s
    → fits_marked s n ≡ true
    → fits_screen (truncate (take (n + 1) s) n) ≡ true
truncate_fits s n h f =
    let longer : n < length (take (n + 1) s) = omega (arith, length-take_next s n h) in
    elim (Bool-cases (leb n 3)) [
      | inl narrow ↦
          rw (truncate_of_narrow (take (n + 1) s) n (leb→le _ _ narrow) longer)
            (dots_fit n (leb→le _ _ narrow))
      | inr wide ↦
          let (k, le, e) = truncate-IsMarked (take (n + 1) s) n (ground arith) longer in
          rw (e, take-take k (n + 1) s (omega arith)) (fits_marked-IsDownward s k n (omega arith) f)
    ]

shrink_of_long :
    (s : Text)
    → fits_screen s ≡ false
    → shrink s ≡ (
        if shrink_point s == 0 then [] else truncate (take (shrink_point s + 1) s) (shrink_point s))
unfolding shrink
shrink_of_long s h = rw h

-- For every text the result fits one screen, in the encoding that the result itself forces.
pub fits_screen-shrink : (s : Text) → fits_screen (shrink s) ≡ true
fits_screen-shrink s = elim (Bool-cases (fits_screen s)) [
  | inl short ↦ let same : shrink s ≡ s = unfold shrink in rw short in rw same short
  | inr long ↦ rw (shrink_of_long s long) (elim (Bool-cases (shrink_point s == 0)) [
    | inl nothing ↦ rw nothing fits_nil
    | inr some_fit ↦ rw some_fit (
        truncate_fits s (shrink_point s) (shrink_in_range s long)
          (shrink_point_fits s (ground arith)))
  ])
]

fits_marked-length : (s : Text) (n : ℕ) → n ≤ length s → fits_marked s n ≡ true → n ≤ max_screen
fits_marked-length s n h f =
    let most = length-le-of_fits 0 (take n s ++ ellipsis) (sym (fits_screen-with _) ∙ f) in
    omega (arith, most, length-append (take n s) ellipsis, length-take n s)

-- The search of `Shrink` is exact: a prefix of the text fits beside the ellipsis exactly if it is
-- no longer than the one found, though a longer one may force another encoding.
pub fits_marked_iff :
    (s : Text) (n : ℕ) → n ≤ length s → (fits_marked s n ≡ true) ↔ (n ≤ shrink_point s)
fits_marked_iff s n h = (
  λ f.
      let short = fits_marked-length s n h f in
      unfold shrink_point in
      le-longest (fits_marked s) (fits_marked-IsDownward s) (min (length s) max_screen) n
        (omega arith) f,
  λ le. elim (Bool-cases (shrink_point s == 0)) [
    | inl nothing ↦ let none_left : n ≡ 0 = ground arith in rw none_left (dots_fit 3 (omega arith))
    | inr some_fit ↦
        fits_marked-IsDownward s n (shrink_point s) le (shrink_point_fits s (ground arith))
  ],
)

-- Of a text that does not fit, where more than three runes fit beside the marker, `Shrink` keeps a
-- prefix and the marker, and three further runes of the text would still fit beside it.
pub shrink_spare :
    (s : Text)
    → fits_screen s ≡ false
    → 3 < shrink_point s
    → (k : ℕ) × (shrink s ≡ take k s ++ ellipsis)
      × (k + 3 < length s)
      × (fits_marked s (k + 3) ≡ true)
shrink_spare s long wide =
    let inside = shrink_in_range s long in
    let n = shrink_point s in
    let (k, le, e) =
      truncate-IsMarked (take (n + 1) s) n wide (omega (arith, length-take_next s n inside)) in
    (
      k,
      rw (shrink_of_long s long, gt→== n wide, e, take-take k (n + 1) s (omega arith)),
      omega arith,
      (fits_marked_iff s (k + 3) (omega arith)).1 (omega arith),
    )
