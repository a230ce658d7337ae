-- ===== src/Sdk/Paginate/Pages.antt =====
-- `Paginate` of sdk/go/render.go: the rounds of its loop, the pages and their runes.
use openussd.Prelude.{
  ℕ, zero, suc, ◌+◌, ◌≤◌, ◌<◌, ◌≡◌, ◌≢◌, refl, sym, ◌∙◌, ap, ◌⊎◌, inl, inr, true, false, Option,
  some, List, [], ◌∷◌, ◌++◌, length, take, drop, arith, Bool-cases, All, take-take, length-take,
  length-drop, min, append_assoc, append-nil,
}
use openussd.Strings.{Text, is_empty, trim_left, trim_space}
use openussd.Canonical.Encoding.Fits.{fits_with}
use openussd.Sdk.Bisect.{le-longest}
use openussd.Sdk.Shrink.{max_screen}
use openussd.Sdk.Paginate.{
  prefix_fits, fit_runes, PageStep, page_step, paginate_from, no_room, paginate,
}
use openussd.Sdk.Paginate.Steps.{
  IsCut, Round, stopped, finished, continued, page_step-Round, prefix_fits-IsDownward, fit_runes-le,
}
use openussd.Sdk.Paginate.Content.{
  ink, ink_all, ink-trim_left, ink-trim_right, ink-take-drop, one_fits,
}

-- A page that is not empty and fits beside the reserve.
abbrev pub IsPage : ℕ → Text → Type 0
IsPage reserve p = (fits_with reserve p ≡ true) × (is_empty p ≡ false)

-- The pages fit, their ink is the first part of the text's, and nothing is left if one rune fits.
pub record IsPaged (reserve : ℕ) (rest : Text) (pages : List Text) : Type 0 where
  pub fits : All (IsPage reserve) pages
  pub left : Text
  pub content : ink_all pages ++ ink left ≡ ink rest
  pub complete : reserve + 2 ≤ 70 → ink left ≡ []

some_rune_fits :
    (rest : Text) (reserve : ℕ)
    → reserve + 2 ≤ 70
    → is_empty rest ≡ false
    → fit_runes (take max_screen rest) reserve ≢ 0
unfolding fit_runes
some_rune_fits [] reserve h blank e = ground arith
some_rune_fits (r ∷ rest) reserve h blank e =
    let window = take max_screen (r ∷ rest) in
    let low =
      le-longest (prefix_fits window reserve) (prefix_fits-IsDownward window reserve)
        (min (length window) max_screen) 1 (omega (arith, length-take max_screen (r ∷ rest)))
        (one_fits r reserve h) in
    omega arith

empty-ink : (s : Text) → is_empty s ≡ true → ink s ≡ []
unfolding ink
empty-ink [] h = refl
empty-ink (r ∷ s) h = ground arith

IsPaged-stop :
    (reserve : ℕ) (rest : Text)
    → (is_empty rest ≡ true) ⊎ (fit_runes (take max_screen rest) reserve ≡ 0)
    → IsPaged reserve rest []
unfolding ink_all
IsPaged-stop reserve rest h = record {
  fits = tt;
  left = rest;
  content = refl;
  complete = λ room. elim h [
    | inl blank ↦ empty-ink rest blank
    | inr none_fits ↦ elim (Bool-cases (is_empty rest)) [
      | inl blank ↦ empty-ink rest blank
      | inr full ↦ absurd (some_rune_fits rest reserve room full none_fits)
    ]
  ];
}

IsPaged-last :
    (reserve : ℕ) (rest : Text)
    → fits_with reserve rest ≡ true
    → is_empty rest ≡ false
    → IsPaged reserve rest (rest ∷ [])
unfolding ink_all
IsPaged-last reserve rest h full = record {
  fits = ((h, full), tt);
  left = [];
  content = unfold ink in simp append-nil;
  complete = λ room. unfold ink in refl;
}

cut-ink :
    (rest : Text) (reserve : ℕ) {r : Text × ℕ}
    → IsCut (take max_screen rest) (fit_runes (take max_screen rest) reserve) r
    → ink r.0 ≡ ink (take r.1 rest)
cut-ink rest reserve {r} c =
    let small : r.1 ≤ max_screen = omega (
      arith,
      c.used_le,
      fit_runes-le (take max_screen rest) reserve,
      length-take max_screen rest,
    ) in
    elim c.trimmed [
      | inl e ↦ ap ink e ∙ (ink-trim_right _ ∙ ap ink (take-take r.1 max_screen rest small))
      | inr e ↦ ap ink e ∙ ap ink (take-take r.1 max_screen rest small)
    ]

IsPaged-more :
    (reserve : ℕ) (rest : Text) {r : Text × ℕ} {pages : List Text}
    → IsCut (take max_screen rest) (fit_runes (take max_screen rest) reserve) r
    → fits_with reserve r.0 ≡ true
    → IsPaged reserve (drop r.1 rest) pages
    → IsPaged reserve rest (r.0 ∷ pages)
unfolding ink_all
IsPaged-more reserve rest {r} {pages} c h ih = record {
  fits = ((h, c.not_empty), ih.fits);
  left = ih.left;
  content =
      append_assoc (ink r.0) (ink_all pages) (ink ih.left)
      ∙ (ap (λ u. ink r.0 ++ u) ih.content
          ∙ (ap (λ u. u ++ ink (drop r.1 rest)) (cut-ink rest reserve c) ∙ ink-take-drop r.1 rest));
  complete = ih.complete;
}

abbrev Outcome : ℕ → Text → Option (List Text) → Type 0
Outcome reserve rest o = (pages : List Text) × (o ≡ some pages) × IsPaged reserve rest pages

length-trim_left : (s : Text) → length (trim_left s) ≤ length s
unfolding trim_left
length-trim_left [] = omega arith
length-trim_left (r ∷ s) = ground (arith, length-trim_left s)

-- After a round that goes on, fewer runes are left.
next_shorter :
    (rest : Text) (reserve : ℕ) {r : Text × ℕ}
    → IsCut (take max_screen rest) (fit_runes (take max_screen rest) reserve) r
    → length (drop r.1 rest) < length rest
next_shorter rest reserve {r} c = omega (
  arith,
  length-drop r.1 rest,
  c.progress,
  c.used_le,
  fit_runes-le (take max_screen rest) reserve,
  length-take max_screen rest,
)

Round-Outcome :
    (fuel : ℕ) (rest : Text) (reserve : ℕ) {st : PageStep}
    → Round (trim_left rest) reserve st
    → page_step (trim_left rest) reserve ≡ st
    → ((next : Text)
        → length next < length (trim_left rest)
        → Outcome reserve next (paginate_from fuel next reserve))
    → Outcome reserve (trim_left rest) (paginate_from (suc fuel) rest reserve)
unfolding paginate_from
Round-Outcome fuel rest reserve (stopped h) e ih =
    ([], rw (e, paginate_from), IsPaged-stop reserve (trim_left rest) h)
Round-Outcome fuel rest reserve (finished h full) e ih =
    (trim_left rest ∷ [], rw (e, paginate_from), IsPaged-last reserve (trim_left rest) h full)
Round-Outcome fuel rest reserve (continued {r} c h) e ih =
    let (pages, found, paged) =
      ih (drop r.1 (trim_left rest)) (next_shorter (trim_left rest) reserve c) in
    (r.0 ∷ pages, rw (e, paginate_from) (rw found), IsPaged-more reserve (trim_left rest) c h paged)

IsPaged-trim :
    (reserve : ℕ) (rest : Text) {pages : List Text}
    → IsPaged reserve (trim_left rest) pages
    → IsPaged reserve rest pages
IsPaged-trim reserve rest h = record {
  fits = h.fits;
  left = h.left;
  content = h.content ∙ ink-trim_left rest;
  complete = h.complete;
}

-- With more fuel than runes the loop ends.
paginate_from-IsPaged :
    (fuel : ℕ) (rest : Text) (reserve : ℕ)
    → length rest < fuel
    → Outcome reserve rest (paginate_from fuel rest reserve)
paginate_from-IsPaged zero rest reserve h = elim h [ ]
paginate_from-IsPaged (suc fuel) rest reserve h =
    let (pages, found, paged) =
      Round-Outcome fuel rest reserve (page_step-Round (trim_left rest) reserve) refl
        (λ next shorter.
          paginate_from-IsPaged fuel next reserve
            (omega (arith, length-trim_left rest, shorter))) in
    (pages, found, IsPaged-trim reserve rest paged)

paginate_of_room :
    (body : Text) (reserve : ℕ)
    → no_room body reserve ≡ false
    → (paginate_from (suc (length (trim_space body))) (trim_space body) reserve
        ≡ some (paginate body reserve))
      × IsPaged reserve (trim_space body) (paginate body reserve)
unfolding paginate
paginate_of_room body reserve room =
    let (pages, found, paged) =
      paginate_from-IsPaged (suc (length (trim_space body))) (trim_space body) reserve
        (omega arith) in
    rw (room, found) (refl, paged)

-- If neither early return is taken, as many rounds as the trimmed body has runes, and one more,
-- end the loop, with the pages that `paginate` returns.
pub paginate_total :
    (body : Text) (reserve : ℕ)
    → no_room body reserve ≡ false
    → paginate_from (suc (length (trim_space body))) (trim_space body) reserve
      ≡ some (paginate body reserve)
paginate_total body reserve room = (paginate_of_room body reserve room).0

-- No page is empty, and each fits a screen beside the reserve, in the encoding that it forces.
pub paginate_pages_fit : (body : Text) (reserve : ℕ) → All (IsPage reserve) (paginate body reserve)
paginate_pages_fit body reserve = elim (Bool-cases (no_room body reserve)) [
  | inl full ↦ unfold paginate in rw full tt
  | inr room ↦ (paginate_of_room body reserve room).1.fits
]

ink-trim_space : (s : Text) → ink (trim_space s) ≡ ink s
unfolding trim_space
ink-trim_space s = ink-trim_right (trim_left s) ∙ ink-trim_left s

room_left : (body : Text) (reserve : ℕ) → reserve + 2 ≤ 70 → no_room body reserve ≡ false
unfolding no_room
room_left body reserve h = ground arith

-- If the reserve leaves two units of the smaller screen, no rune but spaces is lost, added or moved:
-- the pages joined and the body have the same ink.
pub paginate_content :
    (body : Text) (reserve : ℕ) → reserve + 2 ≤ 70 → ink_all (paginate body reserve) ≡ ink body
paginate_content body reserve h =
    let (_, paged) = paginate_of_room body reserve (room_left body reserve h) in
    sym (append-nil _)
    ∙ (ap (λ u. ink_all (paginate body reserve) ++ u) (sym (paged.complete h))
        ∙ (paged.content ∙ ink-trim_space body))
