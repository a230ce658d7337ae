-- ===== src/Maps/Laws.antt =====
-- Reading a map after each operation, and the keys that stay distinct.
use openussd.Prelude.{
  Bool, false, Option, none, some, [], ◌∷◌, ◌≡◌, refl, if◌then◌else◌, arith, inl, inr, Bool-cases,
}
use openussd.Strings.{Text, text_eq}
use openussd.Strings.Equal.{text_eq_iff}
use openussd.Maps.{Map, lookup, insert, erase, erase_if, HasDistinctKeys}

module _ {ℓ} {V : Type ℓ} where
  pub lookup-insert :
      (k j : Text) (v : V) (m : Map V)
      → lookup j (insert k v m) ≡ (if text_eq k j then some v else lookup j m)
  unfolding lookup insert
  lookup-insert k j v [] = refl
  lookup-insert k j v ((i, w) ∷ m) =
      ground (arith, text_eq_iff k j, text_eq_iff i k, text_eq_iff i j, lookup-insert k j v m)

  pub lookup-erase :
      (k j : Text) (m : Map V) → lookup j (erase k m) ≡ (if text_eq k j then none else lookup j m)
  unfolding lookup erase
  lookup-erase k j [] = ground arith
  lookup-erase k j ((i, w) ∷ m) =
      ground (arith, text_eq_iff k j, text_eq_iff i k, text_eq_iff i j, lookup-erase k j m)

  -- An entry is gone exactly if the test picks it out.
  abbrev pub kept : (V → Bool) → Option V → Option V
  kept drop none = none
  kept drop (some v) = if drop v then none else some v

  lookup_absent :
      (drop : V → Bool) (j : Text) (m : Map V)
      → lookup j m ≡ none
      → lookup j (erase_if drop m) ≡ none
  unfolding lookup erase_if
  lookup_absent drop j [] h = refl
  lookup_absent drop j ((i, w) ∷ m) h = ground (arith, lookup_absent drop j m)

  -- Where the test picks out entries, not keys, distinct keys make the result a function of each.
  pub lookup-erase_if :
      (drop : V → Bool) (j : Text) (m : Map V)
      → HasDistinctKeys m
      → lookup j (erase_if drop m) ≡ kept drop (lookup j m)
  unfolding lookup erase_if
  lookup-erase_if drop j [] h = refl
  lookup-erase_if drop j ((i, w) ∷ m) h =
      ground (arith, text_eq_iff i j, lookup-erase_if drop j m h.1, lookup_absent drop i m, h.0)

  pub insert-HasDistinctKeys :
      (k : Text) (v : V) (m : Map V) → HasDistinctKeys m → HasDistinctKeys (insert k v m)
  unfolding insert
  insert-HasDistinctKeys k v [] h = (unfold lookup in refl, tt)
  insert-HasDistinctKeys k v ((i, w) ∷ m) h = elim (Bool-cases (text_eq i k)) [
    | inl same ↦ rw same (rw (← (text_eq_iff i k).0 same) h)
    | inr other ↦
        let other' : text_eq k i ≡ false = ground (arith, text_eq_iff i k, text_eq_iff k i) in
        rw other (rw (lookup-insert k i v m, other') h.0, insert-HasDistinctKeys k v m h.1)
  ]

  pub erase-HasDistinctKeys :
      (k : Text) (m : Map V) → HasDistinctKeys m → HasDistinctKeys (erase k m)
  unfolding erase
  erase-HasDistinctKeys k [] h = h
  erase-HasDistinctKeys k ((i, w) ∷ m) h = elim (Bool-cases (text_eq i k)) [
    | inl same ↦ rw same (erase-HasDistinctKeys k m h.1)
    | inr other ↦ rw other (ground (arith, lookup-erase k i m, h.0), erase-HasDistinctKeys k m h.1)
  ]

  pub erase_if-HasDistinctKeys :
      (drop : V → Bool) (m : Map V) → HasDistinctKeys m → HasDistinctKeys (erase_if drop m)
  unfolding erase_if
  erase_if-HasDistinctKeys drop [] h = h
  erase_if-HasDistinctKeys drop ((i, w) ∷ m) h = elim (Bool-cases (drop w)) [
    | inl gone ↦ rw gone (erase_if-HasDistinctKeys drop m h.1)
    | inr stays ↦ rw stays (lookup_absent drop i m h.0, erase_if-HasDistinctKeys drop m h.1)
  ]
