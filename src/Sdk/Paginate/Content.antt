-- ===== src/Sdk/Paginate/Content.antt =====
-- The ink of a text: its runes that are no spaces, which trimming and cutting keep.
use openussd.Prelude.{
  ℕ, ◌+◌, ◌≤◌, ◌≡◌, refl, sym, ◌∙◌, ap, inl, inr, true, ◌&&◌, List, [], ◌∷◌, ◌++◌, take, drop,
  if◌then◌else◌, arith, Bool-cases, take-append-drop, and-eq-true,
}
use openussd.Strings.Equal.{is_empty_sound}
use openussd.Strings.{Text, is_empty, is_space, trim_left, trim_right}
use openussd.Canonical.Encoding.{ucs2_units}
use openussd.Canonical.Encoding.Cost.{septets}
use openussd.Canonical.Encoding.Fits.{fits_with, fits_with_lem}

unfoldable pub ink : Text → Text
ink [] = []
ink (r ∷ s) = let rest = ink s in if is_space r then rest else r ∷ rest

unfoldable pub ink_all : List Text → Text
ink_all [] = []
ink_all (p ∷ pages) = ink p ++ ink_all pages

pub ink-append : (s t : Text) → ink (s ++ t) ≡ ink s ++ ink t
unfolding ink
ink-append [] t = refl
ink-append (r ∷ s) t = elim (Bool-cases (is_space r)) [
  | inl blank ↦ rw blank (ink-append s t)
  | inr mark ↦ rw mark (ap (λ u. r ∷ u) (ink-append s t))
]

pub ink-trim_left : (s : Text) → ink (trim_left s) ≡ ink s
unfolding ink trim_left
ink-trim_left [] = refl
ink-trim_left (r ∷ s) = elim (Bool-cases (is_space r)) [
  | inl blank ↦ rw blank (ink-trim_left s)
  | inr mark ↦ rw mark (unfold ink in rw mark)
]

pub ink-trim_right : (s : Text) → ink (trim_right s) ≡ ink s
unfolding ink trim_right
ink-trim_right [] = refl
ink-trim_right (r ∷ s) = elim (Bool-cases (is_space r && is_empty (trim_right s))) [
  | inl blank ↦
      let (space, nothing) = and-eq-true (is_space r) _ blank in
      let none_left : ink s ≡ [] =
        sym (ink-trim_right s) ∙ ap ink (is_empty_sound (trim_right s) nothing) in
      rw blank (rw (space, none_left))
  | inr mark ↦ rw mark (elim (Bool-cases (is_space r)) [
    | inl space ↦ rw space (ink-trim_right s)
    | inr print ↦ rw print (ap (λ u. r ∷ u) (ink-trim_right s))
  ])
]

pub ink-take-drop : (n : ℕ) (s : Text) → ink (take n s) ++ ink (drop n s) ≡ ink s
ink-take-drop n s = sym (ink-append (take n s) (drop n s)) ∙ ap ink (take-append-drop n s)

-- One rune fits beside any reserve that leaves two units.
pub one_fits : (r reserve : ℕ) → reserve + 2 ≤ 70 → fits_with reserve (r ∷ []) ≡ true
one_fits r reserve h =
    let small : (septets (r ∷ []) ≤ 2) × (ucs2_units (r ∷ []) ≤ 2) =
      unfold septets ucs2_units in (ground arith, ground arith) in
    ground (arith, fits_with_lem reserve (r ∷ []), small.0, small.1)
