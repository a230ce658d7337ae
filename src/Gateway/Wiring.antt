-- ===== src/Gateway/Wiring.antt =====
-- main.go: which adapters newRegistry wires, and in front of which an allowlist stands.
pub mod Order
use openussd.Prelude.{
  Bool, true, false, not, ◌&&◌, Option, none, some, List, [], ◌∷◌, if◌then◌else◌, Result, ok, err,
  ◌≡◌, ◌≢◌, ◌↔◌, map_err, ◌>>=◌, ◌>>◌, arith, inl, inr, ◌⊎◌, Bool-cases, Option-cases, Result-cases,
  >>=-eq-ok, map_err-eq-ok, if_err-eq-ok, refl, sym, ◌∙◌, subst, ap, In, some-injective,
}
use openussd.Strings.{Text, text_eq, is_empty}
use openussd.Strings.Equal.{text_eq_iff, text_eq_refl}
use openussd.Maps
use openussd.Maps.{Map, HasDistinctKeys}
use openussd.Tenant.Router.Table.{ok-injective}
use openussd.Canonical.Event.{Response}
use openussd.Adapter.AfricasTalking
use openussd.Adapter.Simulator
use openussd.Adapter.Simulator.{SimRequest}
use openussd.Adapter.{Adapter, needs_allowlist, HttpRequest}
use openussd.Adapter.TrustedProxy.{Network, trusted, client_addr}
use openussd.Adapter.TrustedProxy.Prefixes.{Prefixes, PrefixError, parse_prefixes}
use openussd.Adapter.Registry.{
  Registry, RegisterError, new_registry, register, lookup, lookup-register,
}
use openussd.Config.{Config, AdapterConfig}
use openussd.Gateway.{
  available, WiringError, guard, guarded, registered, register_all, wire, is_nil,
}

-- The adapters stand under their own names, which are not empty.
abbrev pub IsNamed : Map Adapter → Type 0
IsNamed adapters =
    (name : Text) (a : Adapter)
    → Maps.lookup name adapters ≡ some a
    → (a.name ≡ name) × (is_empty name ≡ false)

abbrev pub or_else {ℓ} : {A : Type ℓ} → Option A → Option A → Option A
or_else none o = o
or_else (some a) o = some a

pub registered-eq-ok :
    (reg : Registry) (a : Adapter) {next : Registry} (name : Text)
    → registered reg a ≡ ok next
    → (lookup reg a.name ≡ none)
      × (lookup next name ≡ (if text_eq a.name name then some a else lookup reg name))
unfolding registered
registered-eq-ok reg a name h = elim (lookup-register reg a name) [
  | inl (new, after) ↦ rw (← ok-injective (rw (new.0, registered) at h)) (new.1, after)
  | inr (e, refused, same) ↦ absurd (ground arith)
]

register_free :
    (reg : Registry) (a : Adapter)
    → is_empty a.name ≡ false
    → lookup reg a.name ≡ none
    → (register reg a).1 ≡ ok tt
unfolding register
register_free reg a named free = rw (named, free)

pub registered_free :
    (reg : Registry) (a : Adapter)
    → is_empty a.name ≡ false
    → lookup reg a.name ≡ none
    → registered reg a ≡ ok (register reg a).0
unfolding registered
registered_free reg a named free = rw (register_free reg a named free, registered)

module _ {Addr Prefix : Type 0} (net : Network Addr Prefix) (netip : Prefixes Addr Prefix)
    (adapters : Map Adapter) where
  guard-name :
      (name : Text) (base : Adapter) (ac : AdapterConfig) {a : Adapter}
      → guard net netip name base ac ≡ ok a
      → a.name ≡ base.name
  unfolding guard trusted
  guard-name name base ac h = elim (Bool-cases (is_nil ac.allowed_sources)) [
    | inl bare ↦ ap (λ (x : Adapter). x.name) (sym (ok-injective (rw (bare, guard) at h)))
    | inr listed ↦
        let (allowed, _, h1) =
          >>=-eq-ok (map_err _ (parse_prefixes netip ac.allowed_sources)) _
            (rw (listed, guard) at h) in
        let (forwarders, _, h2) =
          >>=-eq-ok (map_err _ (parse_prefixes netip ac.trusted_forwarders)) _ h1 in
        ap (λ (x : Adapter). x.name) (sym (ok-injective h2))
  ]

  -- What a wired adapter is made of.
  pub guarded-eq-ok :
      (name : Text) (ac : AdapterConfig) {a : Adapter}
      → guarded net netip adapters name ac ≡ ok a
      → (base : Adapter) × (Maps.lookup name adapters ≡ some base)
        × ((needs_allowlist base && is_nil ac.allowed_sources) ≡ false)
        × (guard net netip name base ac ≡ ok a)
  unfolding guarded
  guarded-eq-ok name ac h = elim (Option-cases (Maps.lookup name adapters)) [
    | inl missing ↦ absurd (ground arith)
    | inr (base, found) ↦
        let (fine, g) =
          if_err-eq-ok (needs_allowlist base && is_nil ac.allowed_sources) _ _
            (rw (found, guarded) at h) in
        (base, found, fine, g)
  ]

module _ {Addr Prefix : Type 0} (net : Network Addr Prefix) (netip : Prefixes Addr Prefix)
    (adapters : Map Adapter) (named : IsNamed adapters) where
  pub guarded-name :
      (name : Text) (ac : AdapterConfig) {a : Adapter}
      → guarded net netip adapters name ac ≡ ok a
      → (a.name ≡ name) × (is_empty name ≡ false)
  guarded-name name ac h =
      let (base, found, _, g) = guarded-eq-ok net netip adapters name ac h in
      let (same, full) = named name base found in
      (guard-name net netip adapters name base ac g ∙ same, full)

  -- What is served under a name, from its entry alone.
  abbrev pub served_entry : Text → Option AdapterConfig → Option Adapter
  served_entry name none = none
  served_entry name (some ac) = elim ac.enabled [
    | false ↦ none
    | true ↦ elim (guarded net netip adapters name ac) [ err e ↦ none | ok a ↦ some a ]
  ]

  abbrev pub served : Map AdapterConfig → Text → Option Adapter
  served m name = served_entry name (Maps.lookup name m)

  served_other :
      (n name : Text) (ac : AdapterConfig) (m : Map AdapterConfig)
      → text_eq n name ≡ false
      → served ((n, ac) ∷ m) name ≡ served m name
  served_other n name ac m other = unfold Maps.lookup in rw other

  served_here :
      (n : Text) (ac : AdapterConfig) (m : Map AdapterConfig)
      → served ((n, ac) ∷ m) n ≡ served_entry n (some ac)
  served_here n ac m = unfold Maps.lookup in rw (text_eq_refl n)

  served_absent : (n : Text) (m : Map AdapterConfig) → Maps.lookup n m ≡ none → served m n ≡ none
  served_absent n m h = rw h

  served-enabled :
      (n : Text) (ac : AdapterConfig) {a : Adapter}
      → ac.enabled ≡ true
      → guarded net netip adapters n ac ≡ ok a
      → served_entry n (some ac) ≡ some a
  served-enabled n ac on g = rw (on, g)

  served_on :
      (n name : Text) (ac : AdapterConfig) (m : Map AdapterConfig) (a : Adapter)
      (old : Option Adapter)
      → ac.enabled ≡ true
      → guarded net netip adapters n ac ≡ ok a
      → Maps.lookup n m ≡ none
      → or_else (served m name) (if text_eq n name then some a else old)
        ≡ or_else (served ((n, ac) ∷ m) name) old
  served_on n name ac m a old on g absent = elim (Bool-cases (text_eq n name)) [
    | inl here ↦
        subst
          (λ x.
            or_else (served m x) (if text_eq n x then some a else old)
            ≡ or_else (served ((n, ac) ∷ m) x) old)
          ((text_eq_iff n name).0 here)
          (rw (
            served_absent n m absent,
            served_here n ac m,
            served-enabled n ac on g,
            text_eq_refl n,
          ))
    | inr other ↦ rw (served_other n name ac m other, other)
  ]

  served_off :
      (n name : Text) (ac : AdapterConfig) (m : Map AdapterConfig)
      → ac.enabled ≡ false
      → Maps.lookup n m ≡ none
      → served m name ≡ served ((n, ac) ∷ m) name
  served_off n name ac m off absent = elim (Bool-cases (text_eq n name)) [
    | inl here ↦
        subst (λ x. served m x ≡ served ((n, ac) ∷ m) x) ((text_eq_iff n name).0 here)
          (rw (served_absent n m absent, served_here n ac m, off))
    | inr other ↦ rw (served_other n name ac m other)
  ]

  pub register_all-lookup :
      (reg : Registry) (m : Map AdapterConfig) {reg' : Registry} (name : Text)
      → HasDistinctKeys m
      → register_all net netip adapters reg m ≡ ok reg'
      → lookup reg' name ≡ or_else (served m name) (lookup reg name)
  unfolding register_all
  register_all-lookup reg [] name d h = rw (← ok-injective h) (unfold Maps.lookup in refl)
  register_all-lookup reg ((n, ac) ∷ m) name d h = elim (Bool-cases ac.enabled) [
    | inl on ↦
        let (a, g, h1) =
          >>=-eq-ok (guarded net netip adapters n ac) _ (rw (on, register_all) at h) in
        let (next, step, h2) = >>=-eq-ok (registered reg a) _ h1 in
        let after = (registered-eq-ok reg a name step).1 in
        let rest = register_all-lookup next m name d.1 h2 in
        rest
        ∙ ap (or_else (served m name)) (
            after
            ∙ ap (λ x. if text_eq x name then some a else lookup reg name) (guarded-name n ac g).0)
        ∙ served_on n name ac m a (lookup reg name) on g d.0
    | inr off ↦
        register_all-lookup reg m name d.1 (rw (off, register_all) at h)
        ∙ ap (λ o. or_else o (lookup reg name)) (served_off n name ac m off d.0)
  ]

lookup_key {ℓ} :
    {V : Type ℓ} (n name : Text) (v w : V) (m : Map V)
    → Maps.lookup name ((n, v) ∷ m) ≡ some w
    → ((n ≡ name) × (v ≡ w)) ⊎ (Maps.lookup name m ≡ some w)
unfolding Maps.lookup
lookup_key n name v w m h = elim (Bool-cases (text_eq n name)) [
  | inl here ↦ inl ((text_eq_iff n name).0 here, some-injective (rw here at h))
  | inr there ↦ inr (rw there at h)
]

-- The adapters of the gateway stand under their own names.
pub available-IsNamed :
    (parse_query : Text → Option (Map Text)) (decode : Text → Option SimRequest)
    (encode : Response → Text)
    → IsNamed (available parse_query decode encode)
available-IsNamed parse_query decode encode name a h =
    elim (lookup_key AfricasTalking.name name (AfricasTalking.africastalking parse_query) a _ h) [
      | inl (key, same) ↦ (ap (λ (x : Adapter). x.name) (sym same) ∙ key, subst full key refl)
      | inr other ↦
          elim (lookup_key Simulator.name name (Simulator.simulator decode encode) a _ other) [
            | inl (key, same) ↦ (ap (λ (x : Adapter). x.name) (sym same) ∙ key, subst full key refl)
            | inr nothing ↦ absurd (unfold Maps.lookup in ground arith)
          ]
    ]
  where
    full : Text → Type 0
    full n = is_empty n ≡ false
