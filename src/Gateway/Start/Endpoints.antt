-- ===== src/Gateway/Start/Endpoints.antt =====
-- gateway/cmd/gateway/main.go: every registered adapter is mounted under its own path, and no other.
use openussd.Prelude.{
  Bool, true, false, ◌||◌, Option, none, some, List, [], ◌∷◌, ◌≡◌, refl, sym, ◌∙◌, ap,
  if◌then◌else◌, arith, Bool-cases, Option-cases, inl, inr,
}
use openussd.Strings.{Text, text_eq}
use openussd.Strings.Equal.{text_eq_iff}
use openussd.Maps
use openussd.Maps.{Map}
use openussd.Adapter.{Adapter}
use openussd.Adapter.Registry.{Registry, lookup}
use openussd.Gateway.Start.{text_lt, insert_name, sort_names, keys, names, endpoint, mount}

listed : Text → List Text → Bool
listed name [] = false
listed name (n ∷ names) = text_eq n name || listed name names

listed-insert_name :
    (name n : Text) (names : List Text)
    → listed name (insert_name n names) ≡ listed name (n ∷ names)
unfolding insert_name listed
listed-insert_name name n [] = refl
listed-insert_name name n (m ∷ names) = elim (Bool-cases (text_lt m n)) [
  | inl before ↦ rw (before, insert_name) (ground (arith, listed-insert_name name n names))
  | inr after ↦ rw (after, insert_name) refl
]

listed-sort_names :
    (name : Text) (names : List Text) → listed name (sort_names names) ≡ listed name names
unfolding sort_names listed
listed-sort_names name [] = refl
listed-sort_names name (n ∷ names) =
    listed-insert_name name n (sort_names names)
    ∙ ap (λ b. text_eq n name || b) (listed-sort_names name names)

not_listed :
    (name : Text) (adapters : Map Adapter)
    → listed name (keys adapters) ≡ false
    → Maps.lookup name adapters ≡ none
unfolding keys listed Maps.lookup
not_listed name [] h = refl
not_listed name ((n, a) ∷ adapters) h = ground (arith, not_listed name adapters)

lookup_mounted :
    (name n : Text) (a : Adapter) (m : Map Adapter)
    → Maps.lookup (endpoint name) ((endpoint n, a) ∷ m)
      ≡ (if text_eq n name then some a else Maps.lookup (endpoint name) m)
unfolding Maps.lookup text_eq
lookup_mounted name n a m = refl

-- Where a name is equal to the one that is looked up, so is what is found.
lookup_named :
    (reg : Registry) (name n : Text) (found : Option Adapter)
    → lookup reg n ≡ found
    → text_eq n name ≡ true
    → lookup reg name ≡ found
lookup_named reg name n found h same = ap (lookup reg) (sym ((text_eq_iff n name).0 same)) ∙ h

lookup-mount :
    (reg : Registry) (name : Text) (names : List Text)
    → Maps.lookup (endpoint name) (mount reg names)
      ≡ (if listed name names then lookup reg name else none)
lookup-mount reg name [] = unfold mount listed Maps.lookup in refl
lookup-mount reg name (n ∷ names) = elim (Option-cases (lookup reg n)) [
  | inl nothing ↦
      let skipped : mount reg (n ∷ names) ≡ mount reg names =
        unfold mount in rw (nothing, mount) refl in
      ap (Maps.lookup (endpoint name)) skipped
      ∙ lookup-mount reg name names
      ∙ unfold listed in ground (arith, lookup_named reg name n none nothing)
  | inr (a, found) ↦
      let mounted : mount reg (n ∷ names) ≡ (endpoint n, a) ∷ mount reg names =
        unfold mount in rw (found, mount) refl in
      ap (Maps.lookup (endpoint name)) mounted
      ∙ lookup_mounted name n a (mount reg names)
      ∙ ap (λ o. if text_eq n name then some a else o) (lookup-mount reg name names)
      ∙ unfold listed in ground (arith, lookup_named reg name n (some a) found)
]

-- A callback to the path of a name goes to the adapter that is registered under it, if there is one.
pub lookup-mount_names :
    (reg : Registry) (name : Text)
    → Maps.lookup (endpoint name) (mount reg (names reg)) ≡ lookup reg name
unfolding names lookup
lookup-mount_names reg name = elim (Bool-cases (listed name (keys reg.adapters))) [
  | inl found ↦
      lookup-mount reg name (names reg)
      ∙ ap (λ b. if b then lookup reg name else none)
          (listed-sort_names name (keys reg.adapters) ∙ found)
  | inr missing ↦
      lookup-mount reg name (names reg)
      ∙ ap (λ b. if b then lookup reg name else none)
          (listed-sort_names name (keys reg.adapters) ∙ missing)
      ∙ sym (not_listed name reg.adapters missing)
]
