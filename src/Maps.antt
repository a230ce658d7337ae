-- ===== src/Maps.antt =====
-- Go maps with string keys as association lists: assignment replaces, `delete` removes, and the
-- keys stay distinct. A loop over a map visits the entries in the order of the list.
pub mod Laws
use openussd.Prelude.{
  ℕ, suc, Bool, true, false, Option, none, some, List, [], ◌∷◌, ◌≡◌, if◌then◌else◌, length,
}
use openussd.Strings.{Text, text_eq}

abbrev pub Map {ℓ} : Type ℓ → Type ℓ
Map V = List (Text × V)

module _ {ℓ} {V : Type ℓ} where
  unfoldable pub lookup : Text → Map V → Option V
  lookup k [] = none
  lookup k ((j, v) ∷ m) = if text_eq j k then some v else lookup k m

  unfoldable pub insert : Text → V → Map V → Map V
  insert k v [] = (k, v) ∷ []
  insert k v ((j, w) ∷ m) = if text_eq j k then (k, v) ∷ m else (j, w) ∷ insert k v m

  unfoldable pub erase : Text → Map V → Map V
  erase k [] = []
  erase k ((j, w) ∷ m) = let rest = erase k m in if text_eq j k then rest else (j, w) ∷ rest

  -- `for k, v := range m { if drop(v) { delete(m, k) } }`
  unfoldable pub erase_if : (V → Bool) → Map V → Map V
  erase_if drop [] = []
  erase_if drop ((j, w) ∷ m) = let rest = erase_if drop m in if drop w then rest else (j, w) ∷ rest

  abbrev pub HasDistinctKeys : Map V → Type ℓ
  HasDistinctKeys [] = Unit
  HasDistinctKeys ((j, w) ∷ m) = (lookup j m ≡ none) × HasDistinctKeys m
