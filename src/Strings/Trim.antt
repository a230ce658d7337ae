-- ===== src/Strings/Trim.antt =====
-- Trimming a text, and its parts.
use openussd.Prelude.{
  ℕ, suc, ◌≤◌, [], ◌∷◌, ◌≡◌, refl, ap, arith, inl, inr, All, take, length, Bool-cases, ◌&&◌,
}
use openussd.Strings.{Text, is_empty, is_space, trim_right, trim_left, trim_space}

pub trim_right-take : (s : Text) → (k : ℕ) × (k ≤ length s) × (trim_right s ≡ take k s)
unfolding trim_right
trim_right-take [] = (0, omega arith, refl)
trim_right-take (c ∷ s) = elim (Bool-cases (is_space c && is_empty (trim_right s))) [
  | inl e ↦ (0, omega arith, rw (e))
  | inr e ↦ let (k, h, q) = trim_right-take s in (suc k, omega arith, rw (e) (ap (λ t. c ∷ t) q))
]

module _ (P : ℕ → Type 0) where
  trim_right-All : (s : Text) → All P s → All P (trim_right s)
  unfolding trim_right
  trim_right-All [] h = tt
  trim_right-All (c ∷ s) h = elim (Bool-cases (is_space c && is_empty (trim_right s))) [
    | inl e ↦ rw e tt
    | inr e ↦ rw e (h.0, trim_right-All s h.1)
  ]

  trim_left-All : (s : Text) → All P s → All P (trim_left s)
  unfolding trim_left
  trim_left-All [] h = tt
  trim_left-All (c ∷ s) h = elim (Bool-cases (is_space c)) [
    | inl e ↦ rw e (trim_left-All s h.1)
    | inr e ↦ rw e h
  ]

  pub trim_space-All : (s : Text) → All P s → All P (trim_space s)
  unfolding trim_space
  trim_space-All s h = trim_right-All _ (trim_left-All s h)
