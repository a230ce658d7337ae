-- ===== src/Gateway.antt =====
-- gateway/cmd/gateway/main.go: the adapters that the gateway serves, from its configuration.
pub mod Wiring
pub mod Guards
pub mod Start
use openussd.Prelude.{
  Bool, true, false, not, ◌&&◌, Option, none, some, List, [], ◌∷◌, if◌then◌else◌, Result, ok, err,
  map_err, ◌>>=◌, ◌>>◌,
}
use openussd.Strings.{Text}
use openussd.Maps
use openussd.Maps.{Map}
use openussd.Canonical.Event.{Response}
use openussd.Adapter.{Adapter, needs_allowlist}
use openussd.Adapter.AfricasTalking
use openussd.Adapter.Simulator
use openussd.Adapter.Simulator.{SimRequest}
use openussd.Adapter.TrustedProxy.{Network, trusted}
use openussd.Adapter.TrustedProxy.Prefixes.{Prefixes, PrefixError, parse_prefixes}
use openussd.Adapter.Registry.{Registry, RegisterError, new_registry, register}
use openussd.Config.{Config, AdapterConfig}

-- The local map of `newRegistry`.
abbrev pub available :
    (Text → Option (Map Text)) → (Text → Option SimRequest) → (Response → Text) → Map Adapter
available parse_query decode encode =
    (AfricasTalking.name, AfricasTalking.africastalking parse_query)
    ∷ (Simulator.name, Simulator.simulator decode encode)
    ∷ []

pub data WiringError : Type 0 where
  unknown_adapter no_allowed_sources : Text → WiringError
  bad_sources bad_forwarders : Text → PrefixError → WiringError
  not_registered : RegisterError → WiringError

abbrev pub is_nil : List Text → Bool
is_nil [] = true
is_nil (s ∷ sources) = false

-- `registry.Register`, as a step that returns the changed registry.
unfoldable pub registered : Registry → Adapter → Result WiringError Registry
registered reg a = elim (register reg a).1 [
  | err e ↦ err (not_registered e)
  | ok _ ↦ ok (register reg a).0
]

module _ {Addr Prefix : Type 0} (net : Network Addr Prefix) (netip : Prefixes Addr Prefix) where
  unfoldable pub guard : Text → Adapter → AdapterConfig → Result WiringError Adapter
  guard name base ac = if is_nil ac.allowed_sources then ok base else (do
    allowed ← map_err (bad_sources name) (parse_prefixes netip ac.allowed_sources)
    forwarders ← map_err (bad_forwarders name) (parse_prefixes netip ac.trusted_forwarders)
    ok (trusted net (record { adapter = base; allowed = allowed; forwarders = forwarders })))

  -- What an enabled adapter is served as.
  unfoldable pub guarded : Map Adapter → Text → AdapterConfig → Result WiringError Adapter
  unfolding guard
  guarded adapters name ac = elim (Maps.lookup name adapters) [
    | none ↦ err (unknown_adapter name)
    | some base ↦
        if needs_allowlist base && is_nil ac.allowed_sources
        then err (no_allowed_sources name)
        else guard name base ac
  ]

  -- The loop of `newRegistry`.
  unfoldable pub register_all :
      Map Adapter → Registry → Map AdapterConfig → Result WiringError Registry
  unfolding guarded registered
  register_all adapters reg [] = ok reg
  register_all adapters reg ((name, ac) ∷ rest) = elim ac.enabled [
    | false ↦ register_all adapters reg rest
    | true ↦ (do
      a ← guarded adapters name ac
      next ← registered reg a
      register_all adapters next rest)
  ]

  unfoldable pub wire : Map Adapter → Config → Result WiringError Registry
  wire adapters cfg = register_all adapters new_registry cfg.adapters
