-- ===== src/Adapter/Registry.antt =====
-- The registry of gateway/internal/adapter/adapter.go. A nil adapter cannot be written here, and the
-- lock makes each operation one step.
use openussd.Prelude.{
  ◌≡◌, refl, Option, none, some, [], if◌then◌else◌, Result, ok, err, ◌⊎◌, Bool-cases, Option-cases,
  inl, inr,
}
use openussd.Strings.{Text, is_empty, text_eq}
use openussd.Maps
use openussd.Maps.{Map}
use openussd.Maps.Laws.{lookup-insert}
use openussd.Adapter.{Adapter}

pub record Registry : Type 0 where
  pub adapters : Map Adapter

pub data RegisterError : Type 0 where
  empty_name : RegisterError
  already_registered : Text → RegisterError

abbrev pub new_registry : Registry
new_registry = record { adapters = [] }

unfoldable pub lookup : Registry → Text → Option Adapter
lookup reg name = Maps.lookup name reg.adapters

unfoldable pub register : Registry → Adapter → Registry × Result RegisterError Unit
unfolding lookup
register reg a = if is_empty a.name then (reg, err empty_name) else elim (lookup reg a.name) [
  | some _ ↦ (reg, err (already_registered a.name))
  | none ↦ (record { adapters = Maps.insert a.name a reg.adapters }, ok tt)
]

-- An adapter that was registered is found under its name, which was free, and every other name finds
-- what it did; a registration that is refused changes nothing.
pub lookup-register :
    (reg : Registry) (a : Adapter) (name : Text)
    → ((((register reg a).1 ≡ ok tt) × (lookup reg a.name ≡ none))
        × (lookup (register reg a).0 name
            ≡ (if text_eq a.name name then some a else lookup reg name)))
      ⊎ ((e : RegisterError) × ((register reg a).1 ≡ err e) × ((register reg a).0 ≡ reg))
unfolding register
lookup-register reg a name = elim (Bool-cases (is_empty a.name)) [
  | inl nameless ↦ inr (empty_name, rw nameless refl, rw nameless refl)
  | inr named ↦ elim (Option-cases (lookup reg a.name)) [
    | inr (b, taken) ↦
        inr (already_registered a.name, rw (named, taken) refl, rw (named, taken) refl)
    | inl free ↦ inl (
      (rw (named, free) refl, free),
      rw (named, free) (unfold lookup in lookup-insert a.name name a reg.adapters),
    )
  ]
]
