-- ===== src/Strings/Split.antt =====
-- Splitting a text at a rune, and joining it again.
use openussd.Prelude.{
  ℕ, true, false, List, [], ◌∷◌, ◌++◌, ◌≡◌, refl, sym, ◌∙◌, ap, arith, ◌==◌, ==→eq, Bool-cases, inl,
  inr, All,
}
use openussd.Strings.{Text, split, join, onto_first, contains_rune}

-- No part is missing: there is always one.
abbrev IsNonempty : List Text → Type 0
IsNonempty [] = ⊥
IsNonempty (w ∷ ws) = Unit

onto_first-IsNonempty : (c : ℕ) (ws : List Text) → IsNonempty (onto_first c ws)
onto_first-IsNonempty c [] = tt
onto_first-IsNonempty c (w ∷ ws) = tt

split-IsNonempty : (s : Text) (sep : ℕ) → IsNonempty (split s sep)
unfolding split
split-IsNonempty [] sep = tt
split-IsNonempty (c ∷ s) sep = elim (Bool-cases (c == sep)) [
  | inl here ↦ rw here tt
  | inr other ↦ rw other (onto_first-IsNonempty c (split s sep))
]

join-cons_empty :
    (ws : List Text) (sep : ℕ)
    → IsNonempty ws
    → join ([] ∷ ws) (sep ∷ []) ≡ sep ∷ join ws (sep ∷ [])
unfolding join
join-cons_empty [] sep h = elim h [ ]
join-cons_empty (w ∷ ws) sep h = refl

join-onto_first :
    (c : ℕ) (ws : List Text) (sep : Text) → join (onto_first c ws) sep ≡ c ∷ join ws sep
unfolding join
join-onto_first c [] sep = refl
join-onto_first c (w ∷ []) sep = refl
join-onto_first c (w ∷ v ∷ ws) sep = refl

-- Joining the parts with the separator gives the text back.
pub join-split : (s : Text) (sep : ℕ) → join (split s sep) (sep ∷ []) ≡ s
unfolding split
join-split [] sep = unfold join in refl
join-split (c ∷ s) sep = elim (Bool-cases (c == sep)) [
  | inl here ↦ rw here (
      join-cons_empty (split s sep) sep (split-IsNonempty s sep)
      ∙ (ap (λ t. sep ∷ t) (join-split s sep) ∙ ap (λ d. d ∷ s) (sym (==→eq c sep here))))
  | inr other ↦
      rw other (join-onto_first c (split s sep) (sep ∷ []) ∙ ap (λ t. c ∷ t) (join-split s sep))
]

onto_first-clean :
    (c sep : ℕ) (ws : List Text)
    → (c == sep) ≡ false
    → All (λ w. contains_rune w sep ≡ false) ws
    → All (λ w. contains_rune w sep ≡ false) (onto_first c ws)
unfolding contains_rune
onto_first-clean c sep [] h k = (ground arith, tt)
onto_first-clean c sep (w ∷ ws) h k = (ground (arith, h, k.0), k.1)

-- No part holds the separator.
pub split-clean : (s : Text) (sep : ℕ) → All (λ w. contains_rune w sep ≡ false) (split s sep)
unfolding split
split-clean [] sep = (unfold contains_rune in refl, tt)
split-clean (c ∷ s) sep = elim (Bool-cases (c == sep)) [
  | inl here ↦ rw here ((unfold contains_rune in refl), split-clean s sep)
  | inr other ↦ rw other (onto_first-clean c sep (split s sep) other (split-clean s sep))
]

onto_first-append :
    (c : ℕ) (ws vs : List Text) → IsNonempty ws → onto_first c (ws ++ vs) ≡ onto_first c ws ++ vs
onto_first-append c [] vs h = elim h [ ]
onto_first-append c (w ∷ ws) vs h = refl

-- The parts of two texts around a separator are the parts of each.
pub split-append : (s t : Text) (sep : ℕ) → split (s ++ sep ∷ t) sep ≡ split s sep ++ split t sep
unfolding split
split-append [] t sep = let same : (sep == sep) ≡ true = ground arith in rw same
split-append (c ∷ s) t sep = elim (Bool-cases (c == sep)) [
  | inl here ↦ rw here (ap (λ ws. [] ∷ ws) (split-append s t sep))
  | inr other ↦ rw other (
      ap (onto_first c) (split-append s t sep)
      ∙ onto_first-append c (split s sep) (split t sep) (split-IsNonempty s sep))
]
