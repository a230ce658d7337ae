-- ===== src/Gateway/Guards.antt =====
-- main.go: when the gateway starts with a set of adapters, and whom a guarded adapter listens to.
use openussd.Prelude.{
  true, false, ◌&&◌, Option, none, some, List, [], ◌∷◌, ok, ◌≡◌, ◌≢◌, ◌↔◌, map_err, arith, inl, inr,
  ◌⊎◌, >>=-eq-ok, map_err-eq-ok, refl, sym, ◌∙◌, subst, ap, In, some-injective,
}
use openussd.Strings.{Text}
use openussd.Maps
use openussd.Maps.{Map, HasDistinctKeys}
use openussd.Tenant.Router.Table.{ok-injective}
use openussd.Adapter.{Adapter, needs_allowlist, HttpRequest}
use openussd.Adapter.TrustedProxy.{Network, TrustedProxy, trusted, client_addr}
use openussd.Adapter.TrustedProxy.Trusts.{verify-IsAllowed}
use openussd.Adapter.TrustedProxy.Prefixes.{Prefixes, parse_prefixes}
use openussd.Adapter.Registry.{Registry, new_registry, lookup}
use openussd.Config.{Config, AdapterConfig}
use openussd.Gateway.{guard, guarded, wire, is_nil}
use openussd.Gateway.Wiring.{IsNamed, guarded-eq-ok, served_entry}
use openussd.Gateway.Wiring.Order.{
  AreFree-new_registry, register_all-AllServable, register_all_total, wire-lookup,
}

-- The ranges of an entry that has any: both lists parse.
pub record HasRanges {Addr Prefix : Type 0} (netip : Prefixes Addr Prefix) (ac : AdapterConfig)
    : Type 0 where
  pub allowed : List Prefix
  pub forwarders : List Prefix
  pub allowed_parses : parse_prefixes netip ac.allowed_sources ≡ ok allowed
  pub forwarders_parse : parse_prefixes netip ac.trusted_forwarders ≡ ok forwarders

abbrev pub behind :
    {Addr Prefix : Type 0} {netip : Prefixes Addr Prefix} {ac : AdapterConfig}
    → Adapter
    → HasRanges netip ac
    → TrustedProxy Prefix
behind base r = record { adapter = base; allowed = r.allowed; forwarders = r.forwarders }

module _ {Addr Prefix : Type 0} (netip : Prefixes Addr Prefix) (adapters : Map Adapter) where
  -- An entry with which the gateway starts: a known adapter, which stands behind ranges that parse
  -- or needs none and has none.
  pub record IsServable (name : Text) (ac : AdapterConfig) : Type 0 where
    pub base : Adapter
    pub known : Maps.lookup name adapters ≡ some base
    pub ranges :
        ((needs_allowlist base ≡ false) × (ac.allowed_sources ≡ []))
        ⊎ ((ac.allowed_sources ≢ []) × HasRanges netip ac)

is_nil_cases : (s : List Text) → ((is_nil s ≡ true) × (s ≡ [])) ⊎ ((is_nil s ≡ false) × (s ≢ []))
is_nil_cases [] = inl (refl, refl)
is_nil_cases (t ∷ s) = inr (refl, λ e. cc)

needed_listed :
    (base : Adapter) (ac : AdapterConfig)
    → needs_allowlist base ≡ true
    → (needs_allowlist base && is_nil ac.allowed_sources) ≡ false
    → is_nil ac.allowed_sources ≡ false
needed_listed base ac needs fine = ground arith

nil_false : (s : List Text) → s ≢ [] → is_nil s ≡ false
nil_false [] h = absurd (h refl)
nil_false (t ∷ s) h = refl

module _ {Addr Prefix : Type 0} (net : Network Addr Prefix) (netip : Prefixes Addr Prefix)
    (adapters : Map Adapter) where
  guard_bare :
      (name : Text) (base : Adapter) (ac : AdapterConfig)
      → is_nil ac.allowed_sources ≡ true
      → guard net netip name base ac ≡ ok base
  unfolding guard
  guard_bare name base ac h = rw h

  guard_listed :
      (name : Text) (base : Adapter) (ac : AdapterConfig) (r : HasRanges netip ac)
      → is_nil ac.allowed_sources ≡ false
      → guard net netip name base ac ≡ ok (trusted net (behind base r))
  unfolding guard
  guard_listed name base ac r h = rw h (rw r.allowed_parses (rw r.forwarders_parse refl))

  guard-HasRanges :
      (name : Text) (base : Adapter) (ac : AdapterConfig) {a : Adapter}
      → is_nil ac.allowed_sources ≡ false
      → guard net netip name base ac ≡ ok a
      → HasRanges netip ac
  unfolding guard
  guard-HasRanges name base ac listed h =
      let (allowed, h1, k1) =
        >>=-eq-ok (map_err _ (parse_prefixes netip ac.allowed_sources)) _
          (rw (listed, guard) at h) in
      let (forwarders, h2, _) =
        >>=-eq-ok (map_err _ (parse_prefixes netip ac.trusted_forwarders)) _ k1 in
      record {
        allowed = allowed;
        forwarders = forwarders;
        allowed_parses = map_err-eq-ok _ _ h1;
        forwarders_parse = map_err-eq-ok _ _ h2;
      }

  guarded_found :
      (name : Text) (ac : AdapterConfig) (base : Adapter)
      → Maps.lookup name adapters ≡ some base
      → (needs_allowlist base && is_nil ac.allowed_sources) ≡ false
      → guarded net netip adapters name ac ≡ guard net netip name base ac
  unfolding guarded
  guarded_found name ac base found fine = rw (found, guarded) (rw fine refl)

  guarded-IsServable :
      (name : Text) (ac : AdapterConfig) {a : Adapter}
      → guarded net netip adapters name ac ≡ ok a
      → IsServable netip adapters name ac
  guarded-IsServable name ac h =
      let (base, found, fine, g) = guarded-eq-ok net netip adapters name ac h in
      record {
        base = base;
        known = found;
        ranges = elim (is_nil_cases ac.allowed_sources) [
          | inl bare ↦ inl (ground arith, bare.1)
          | inr listed ↦ inr (listed.1, guard-HasRanges name base ac listed.0 g)
        ];
      }

  IsServable-guarded :
      (name : Text) (ac : AdapterConfig)
      → IsServable netip adapters name ac
      → (a : Adapter) × (guarded net netip adapters name ac ≡ ok a)
  IsServable-guarded name ac s = elim s.ranges [
    | inl (free, bare) ↦
        let e : is_nil ac.allowed_sources ≡ true = rw bare refl in
        (s.base, guarded_found name ac s.base s.known (rw free) ∙ guard_bare name s.base ac e)
    | inr (listed, r) ↦
        let e : is_nil ac.allowed_sources ≡ false = nil_false ac.allowed_sources listed in
        (
          trusted net (behind s.base r),
          guarded_found name ac s.base s.known (ground arith) ∙ guard_listed name s.base ac r e,
        )
  ]

  -- The registry is built exactly if every enabled adapter is known, and stands behind an allowlist
  -- whose ranges and forwarders all parse, or needs none and has none. The keys are distinct and the
  -- adapters stand under their own names.
  pub wire_iff :
      (cfg : Config)
      → IsNamed adapters
      → HasDistinctKeys cfg.adapters
      → ((reg : Registry) × (wire net netip adapters cfg ≡ ok reg)) ↔ (
          (name : Text) (ac : AdapterConfig)
          → Maps.lookup name cfg.adapters ≡ some ac
          → ac.enabled ≡ true
          → IsServable netip adapters name ac)
  unfolding wire
  wire_iff cfg named d = (
    λ built name ac found on.
        guarded-IsServable name ac
          (register_all-AllServable net netip adapters new_registry cfg.adapters built.1 name ac
            found on).1,
    λ all.
        register_all_total net netip adapters named new_registry cfg.adapters d
          (AreFree-new_registry cfg.adapters)
          (λ name ac found on. IsServable-guarded name ac (all name ac found on)),
  )

  -- What is served is a wired entry of the configuration.
  served-guarded :
      (named : IsNamed adapters) (name : Text) (entry : Option AdapterConfig) {a : Adapter}
      → served_entry net netip adapters named name entry ≡ some a
      → (ac : AdapterConfig) × (entry ≡ some ac) × (guarded net netip adapters name ac ≡ ok a)
  served-guarded named name none h = absurd (ground arith)
  served-guarded named name (some ac) h = (ac, refl, ground arith)

  guarded_passes :
      (name : Text) (base a : Adapter) (ac : AdapterConfig) (ranges : HasRanges netip ac)
      (r : HttpRequest)
      → is_nil ac.allowed_sources ≡ false
      → guard net netip name base ac ≡ ok a
      → a.verify r ≡ true
      → (addr : Addr) × (p : Prefix) × (client_addr net (behind base ranges) r ≡ some addr)
        × In p ranges.allowed
        × (net.contains p addr ≡ true)
  unfolding trusted
  guarded_passes name base a ac ranges r listed made passed =
      let t : TrustedProxy Prefix = behind base ranges in
      let same : a ≡ trusted net t =
        ok-injective (sym made ∙ guard_listed name base ac ranges listed) in
      let (addr, p, client, allowed, contained, _) =
        verify-IsAllowed Addr Prefix net t r
          (ap (λ (x : Adapter). x.verify r) (sym same) ∙ passed) in
      (addr, p, client, allowed, contained)

  -- A callback that an adapter which needs an allowlist takes for authentic comes from an address in
  -- one of the ranges that its entry lists, and the entry lists some.
  pub wire-IsGuarded :
      (cfg : Config) (reg : Registry) (name : Text) (base a : Adapter) (r : HttpRequest)
      → IsNamed adapters
      → HasDistinctKeys cfg.adapters
      → wire net netip adapters cfg ≡ ok reg
      → Maps.lookup name adapters ≡ some base
      → needs_allowlist base ≡ true
      → lookup reg name ≡ some a
      → a.verify r ≡ true
      → (ac : AdapterConfig) × (ranges : HasRanges netip ac) × (addr : Addr) × (p : Prefix)
        × (Maps.lookup name cfg.adapters ≡ some ac)
        × (client_addr net (behind base ranges) r ≡ some addr)
        × In p ranges.allowed
        × (net.contains p addr ≡ true)
  wire-IsGuarded cfg reg name base a r named d h found needs registered passed =
      let (ac, entry, g) =
        served-guarded named name (Maps.lookup name cfg.adapters)
          (sym (wire-lookup net netip adapters named cfg name d h) ∙ registered) in
      let (base', found', fine, made) = guarded-eq-ok net netip adapters name ac g in
      let same : base' ≡ base = some-injective (sym found' ∙ found) in
      let listed = needed_listed base' ac (rw same needs) fine in
      let ranges = guard-HasRanges name base' ac listed made in
      let (addr, p, client, allowed, contained) =
        guarded_passes name base a ac ranges r listed
          (subst (λ b. guard net netip name b ac ≡ ok a) same made) passed in
      (ac, ranges, addr, p, entry, client, allowed, contained)
