-- ===== src/Gateway/Wiring/Order.antt =====
-- main.go: when newRegistry succeeds, and that the order in which it visits the map is of no matter.
use openussd.Prelude.{
  true, false, Option, none, some, [], ◌∷◌, if◌then◌else◌, ok, ◌≡◌, arith, inl, inr, Bool-cases,
  >>=-eq-ok, refl, sym, ◌∙◌, subst, ap, some-injective,
}
use openussd.Strings.{Text, text_eq}
use openussd.Strings.Equal.{text_eq_iff, text_eq_refl}
use openussd.Maps
use openussd.Maps.{Map, HasDistinctKeys}
use openussd.Adapter.{Adapter}
use openussd.Adapter.TrustedProxy.{Network}
use openussd.Adapter.TrustedProxy.Prefixes.{Prefixes}
use openussd.Adapter.Registry.{Registry, new_registry, register, lookup}
use openussd.Config.{Config, AdapterConfig}
use openussd.Gateway.{guarded, registered, register_all, wire}
use openussd.Gateway.Wiring.{
  IsNamed, or_else, registered-eq-ok, registered_free, guarded-name, served, served_entry,
  register_all-lookup,
}

-- Two maps with the same entries, in whatever order.
abbrev pub SameEntries {ℓ} : {V : Type ℓ} → Map V → Map V → Type ℓ
SameEntries m m' = (name : Text) → Maps.lookup name m ≡ Maps.lookup name m'

-- No entry of the map is registered yet.
abbrev pub AreFree : Registry → Map AdapterConfig → Type 0
AreFree reg [] = Unit
AreFree reg ((n, ac) ∷ m) = (lookup reg n ≡ none) × AreFree reg m

AreFree-registered :
    (reg next : Registry) (n : Text) (a : Adapter) (m : Map AdapterConfig)
    → ((name : Text) → lookup next name ≡ (if text_eq n name then some a else lookup reg name))
    → Maps.lookup n m ≡ none
    → AreFree reg m
    → AreFree next m
unfolding Maps.lookup
AreFree-registered reg next n a [] after absent free = tt
AreFree-registered reg next n a ((j, ac) ∷ m) after absent free = elim (Bool-cases (text_eq j n)) [
  | inl same ↦ absurd (ground arith)
  | inr other ↦
      let apart : text_eq n j ≡ false = ground (arith, text_eq_iff j n, text_eq_iff n j) in
      (
        after j ∙ rw apart free.0,
        AreFree-registered reg next n a m after (rw other at absent) free.1,
      )
]

pub AreFree-new_registry : (m : Map AdapterConfig) → AreFree new_registry m
unfolding lookup Maps.lookup
AreFree-new_registry [] = tt
AreFree-new_registry ((n, ac) ∷ m) = (refl, AreFree-new_registry m)

or_else_nothing : (name : Text) (o : Option Adapter) → or_else o (lookup new_registry name) ≡ o
unfolding lookup Maps.lookup
or_else_nothing name none = refl
or_else_nothing name (some a) = refl

lookup_first {ℓ} : {V : Type ℓ} (n : Text) (v : V) (m : Map V) → Maps.lookup n ((n, v) ∷ m) ≡ some v
unfolding Maps.lookup
lookup_first n v m = rw (text_eq_refl n)

module _ {Addr Prefix : Type 0} (net : Network Addr Prefix) (netip : Prefixes Addr Prefix)
    (adapters : Map Adapter) where
  -- Every enabled entry can be served.
  abbrev pub AllServable : Map AdapterConfig → Type 0
  AllServable m =
      (name : Text) (ac : AdapterConfig)
      → Maps.lookup name m ≡ some ac
      → ac.enabled ≡ true
      → (a : Adapter) × (guarded net netip adapters name ac ≡ ok a)

  AllServable-cons :
      (n : Text) (ac : AdapterConfig) (m : Map AdapterConfig)
      → (ac.enabled ≡ true → (a : Adapter) × (guarded net netip adapters n ac ≡ ok a))
      → AllServable m
      → AllServable ((n, ac) ∷ m)
  unfolding Maps.lookup
  AllServable-cons n ac m here there name ac' found on = elim (Bool-cases (text_eq n name)) [
    | inl same ↦
        let e : n ≡ name = (text_eq_iff n name).0 same in
        let k : ac ≡ ac' = some-injective (rw same at found) in rw (← e, ← k) (here (rw k on))
    | inr other ↦ there name ac' (rw other at found) on
  ]

  AllServable-tail :
      (n : Text) (ac : AdapterConfig) (m : Map AdapterConfig)
      → Maps.lookup n m ≡ none
      → AllServable ((n, ac) ∷ m)
      → AllServable m
  unfolding Maps.lookup
  AllServable-tail n ac m absent all name ac' found on = elim (Bool-cases (text_eq n name)) [
    | inl same ↦ absurd (ground (arith, text_eq_iff n name))
    | inr other ↦ all name ac' (rw other found) on
  ]

  pub register_all-AllServable :
      (reg : Registry) (m : Map AdapterConfig) {reg' : Registry}
      → register_all net netip adapters reg m ≡ ok reg'
      → AllServable m
  unfolding register_all
  register_all-AllServable reg [] h =
      λ name ac found on. absurd (unfold Maps.lookup in ground arith)
  register_all-AllServable reg ((n, ac) ∷ m) h = elim (Bool-cases ac.enabled) [
    | inl on ↦
        let (a, g, h1) =
          >>=-eq-ok (guarded net netip adapters n ac) _ (rw (on, register_all) at h) in
        let (next, step, h2) = >>=-eq-ok (registered reg a) _ h1 in
        AllServable-cons n ac m (λ _. (a, g)) (register_all-AllServable next m h2)
    | inr off ↦
        AllServable-cons n ac m (λ on. absurd (ground arith))
          (register_all-AllServable reg m (rw (off, register_all) at h))
  ]

  register_all_on :
      (reg next : Registry) (n : Text) (ac : AdapterConfig) (m : Map AdapterConfig) (a : Adapter)
      → ac.enabled ≡ true
      → guarded net netip adapters n ac ≡ ok a
      → registered reg a ≡ ok next
      → register_all net netip adapters reg ((n, ac) ∷ m) ≡ register_all net netip adapters next m
  unfolding register_all
  register_all_on reg next n ac m a on g step = rw (on, register_all) (rw g (rw step refl))

  pub register_all_total :
      (named : IsNamed adapters) (reg : Registry) (m : Map AdapterConfig)
      → HasDistinctKeys m
      → AreFree reg m
      → AllServable m
      → (reg' : Registry) × (register_all net netip adapters reg m ≡ ok reg')
  unfolding register_all
  register_all_total named reg [] d free all = (reg, refl)
  register_all_total named reg ((n, ac) ∷ m) d free all = elim (Bool-cases ac.enabled) [
    | inr off ↦
        let (reg', e) =
          register_all_total named reg m d.1 free.1 (AllServable-tail n ac m d.0 all) in
        (reg', rw (off, register_all) e)
    | inl on ↦
        let (a, g) = all n ac (lookup_first n ac m) on in
        let (same, full) = guarded-name net netip adapters named n ac g in
        let step = registered_free reg a (rw same full) (rw same free.0) in
        let next = (register reg a).0 in
        let after = λ (name : Text).
          subst (λ x. lookup next name ≡ (if text_eq x name then some a else lookup reg name)) same
            (registered-eq-ok reg a name step).1 in
        let (reg', e) =
          register_all_total named next m d.1 (AreFree-registered reg next n a m after d.0 free.1)
            (AllServable-tail n ac m d.0 all) in
        (reg', register_all_on reg next n ac m a on g step ∙ e)
  ]

module _ {Addr Prefix : Type 0} (net : Network Addr Prefix) (netip : Prefixes Addr Prefix)
    (adapters : Map Adapter) (named : IsNamed adapters) where
  pub wire-lookup :
      (cfg : Config) {reg : Registry} (name : Text)
      → HasDistinctKeys cfg.adapters
      → wire net netip adapters cfg ≡ ok reg
      → lookup reg name ≡ served net netip adapters named cfg.adapters name
  unfolding wire
  wire-lookup cfg name d h =
      register_all-lookup net netip adapters named new_registry cfg.adapters name d h
      ∙ or_else_nothing name (served net netip adapters named cfg.adapters name)

  -- Two configurations with the same adapters, in whatever order they are visited, are served alike:
  -- if one is accepted so is the other, and the same adapter is found under every name. The keys of
  -- each are distinct, and the adapters stand under their own names.
  pub wire_order :
      (cfg cfg' : Config) {reg : Registry}
      → HasDistinctKeys cfg.adapters
      → HasDistinctKeys cfg'.adapters
      → SameEntries cfg.adapters cfg'.adapters
      → wire net netip adapters cfg ≡ ok reg
      → (reg' : Registry) × (wire net netip adapters cfg' ≡ ok reg')
        × SameEntries reg.adapters reg'.adapters
  unfolding wire lookup
  wire_order cfg cfg' d d' same h =
      let all = register_all-AllServable net netip adapters new_registry cfg.adapters h in
      let (reg', e) =
        register_all_total net netip adapters named new_registry cfg'.adapters d'
          (AreFree-new_registry cfg'.adapters)
          (λ name ac found on. all name ac (same name ∙ found) on) in
      (
        reg',
        e,
        λ name.
            wire-lookup cfg name d h
            ∙ ap (served_entry net netip adapters named name) (same name)
            ∙ sym (wire-lookup cfg' name d' e),
      )
