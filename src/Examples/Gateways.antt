-- ===== src/Examples/Gateways.antt =====
-- A gateway that serves one network behind an allowlist.
use openussd.Prelude.{
  ◌≡◌, ◌↔◌, refl, true, false, Option, none, some, [], ◌∷◌, In, inl, inr, Bool-cases, subst, ok,
  pos, ap,
}
use openussd.Strings.{Text, codes, text_eq, split, join, trim_space}
use openussd.Strings.Equal.{text_eq_iff}
use openussd.Maps
use openussd.Maps.{Map, HasDistinctKeys}
use openussd.Canonical.Event.{Response}
use openussd.Adapter.{Adapter, needs_allowlist}
use openussd.Adapter.AfricasTalking
use openussd.Adapter.Simulator.{SimRequest}
use openussd.Adapter.Registry.{Registry, lookup}
use openussd.Adapter.TrustedProxy
use openussd.Adapter.TrustedProxy.{trusted, client_addr}
use openussd.Adapter.TrustedProxy.Prefixes.{Prefixes}
use openussd.Config.{Config, AdapterConfig}
use openussd.Gateway.{available, wire}
use openussd.Gateway.Wiring.{IsNamed, available-IsNamed}
use openussd.Gateway.Wiring.Order.{SameEntries, wire_order}
use openussd.Gateway.Guards.{HasRanges, behind, IsServable, wire_iff}
use openussd.Session.Memory.{with_ttl, new_memory}
use openussd.Config.{Loader, load_config}
use openussd.Config.Expand.{scalar}
use openussd.Gateway.Start.{Started, in_memory, mount, names, endpoint, start, new_session_store}
use openussd.Gateway.Start.Parts.{start-IsGuarded}
use openussd.Examples.Data.{two_tenants, https_only, two_routes}
use openussd.Examples.Routes.{routes_built}
use openussd.Examples.Servers.{map_client}
use openussd.Examples.Requests.{one_form, posted, plain}

-- Addresses and ranges are texts.
abbrev textual : Prefixes Text Text
textual = record {
  parse_addr = λ s. some s;
  parse_prefix = λ s. some s;
  addr = λ p. p;
  bits = λ p. 32;
  is_4in6 = λ a. false;
  unmap = λ a. a;
  bit_len = λ a. 32;
  prefix_from = λ a n. a;
  masked = λ p. p;
}

abbrev no_requests : Text → Option SimRequest
no_requests raw = none

abbrev bodies : Response → Text
bodies r = r.body

abbrev adapters : Map Adapter
adapters = available one_form no_requests bodies

abbrev network : AdapterConfig
network = record {
  enabled = true;
  allowed_sources = codes "5" ∷ [];
  trusted_forwarders = codes "9" ∷ [];
}

abbrev unused : AdapterConfig
unused = record { enabled = false; allowed_sources = []; trusted_forwarders = [] }

abbrev guarded_config : Config
guarded_config = record {
  listen = codes ":80";
  session = record { backend = codes "memory"; redis_url = []; ttl = pos 1 };
  adapters = (codes "africastalking", network) ∷ (codes "simulator", unused) ∷ [];
  tenants = two_tenants;
  log_level = codes "info";
}

abbrev turned_config : Config
turned_config = record guarded_config {
  adapters = (codes "simulator", unused) ∷ (codes "africastalking", network) ∷ [];
}

guarded_config-HasDistinctKeys : HasDistinctKeys guarded_config.adapters
unfolding Maps.lookup text_eq
guarded_config-HasDistinctKeys = (refl, (refl, tt))

turned_config-HasDistinctKeys : HasDistinctKeys turned_config.adapters
unfolding Maps.lookup text_eq
turned_config-HasDistinctKeys = (refl, (refl, tt))

named : IsNamed adapters
named = available-IsNamed one_form no_requests bodies

abbrev served_adapter : Adapter
served_adapter = trusted plain (record {
  adapter = AfricasTalking.africastalking one_form;
  allowed = codes "5" ∷ [];
  forwarders = codes "9" ∷ [];
})

abbrev wired : Registry
wired = record { adapters = (codes "africastalking", served_adapter) ∷ [] }

guarded_config-wires : wire plain textual adapters guarded_config ≡ ok wired
unfolding wire Maps.lookup Maps.insert text_eq trusted openussd.Gateway.register_all needs_allowlist
    openussd.Adapter.TrustedProxy.Prefixes.parse_prefixes trim_space openussd.Strings.contains_rune
    openussd.Adapter.Registry.register
guarded_config-wires = refl

wire_iff_example : ((reg : Registry) × (wire plain textual adapters guarded_config ≡ ok reg)) ↔ (
    (name : Text) (ac : AdapterConfig)
    → Maps.lookup name guarded_config.adapters ≡ some ac
    → ac.enabled ≡ true
    → IsServable textual adapters name ac)
wire_iff_example =
    wire_iff plain textual adapters guarded_config named guarded_config-HasDistinctKeys

turned_same : SameEntries guarded_config.adapters turned_config.adapters
unfolding Maps.lookup text_eq
turned_same name = elim (Bool-cases (text_eq (codes "africastalking") name)) [
  | inl here ↦
      subst (λ n. Maps.lookup n guarded_config.adapters ≡ Maps.lookup n turned_config.adapters)
        ((text_eq_iff (codes "africastalking") name).0 here) refl
  | inr other ↦ rw (other, Maps.lookup) refl
]

wire_order_example :
    (reg' : Registry) × (wire plain textual adapters turned_config ≡ ok reg')
    × SameEntries wired.adapters reg'.adapters
wire_order_example =
    wire_order plain textual adapters named guarded_config turned_config
      guarded_config-HasDistinctKeys turned_config-HasDistinctKeys turned_same guarded_config-wires

known :
    Maps.lookup (codes "africastalking") adapters ≡ some (AfricasTalking.africastalking one_form)
unfolding Maps.lookup text_eq
known = refl

passed : served_adapter.verify posted ≡ true
unfolding trusted TrustedProxy.verify text_eq TrustedProxy.trim_brackets split join trim_space
passed = refl

needed : needs_allowlist (AfricasTalking.africastalking one_form) ≡ true
unfolding needs_allowlist
needed = refl

-- The document is not read further here than as the configuration above.
abbrev guarded_loader : Loader
guarded_loader = record {
  read_file = λ path. ok [];
  unmarshal = λ raw. ok (scalar raw);
  decode = λ doc. ok guarded_config;
  lookup_env = λ name. none;
}

abbrev started_gateway : Started map_client
started_gateway = record {
  config = guarded_config;
  backend = in_memory (new_memory (with_ttl 1 ∷ []));
  router = two_routes;
  registry = wired;
  mounts = (codes "/ussd/africastalking", served_adapter) ∷ [];
}

config_loads : load_config guarded_loader [] ≡ ok guarded_config
unfolding load_config openussd.Config.Expand.expand_node openussd.Config.Expand.expand_from
    openussd.Config.validate_config openussd.Config.validate_session text_eq
    openussd.Config.apply_defaults openussd.Config.any_enabled
config_loads = refl

names_mounted : mount wired (names wired) ≡ started_gateway.mounts
unfolding mount names Maps.lookup text_eq
names_mounted = refl

store_opens : new_session_store map_client guarded_config.session ≡ ok started_gateway.backend
unfolding new_session_store text_eq
store_opens = refl

starts : start plain textual map_client https_only guarded_loader adapters [] ≡ ok started_gateway
unfolding start
starts =
    rw (start, config_loads, routes_built, guarded_config-wires)
      (rw store_opens (ap (λ ms. ok (record started_gateway { mounts = ms })) names_mounted))

endpoint_found :
    Maps.lookup (endpoint (codes "africastalking")) started_gateway.mounts ≡ some served_adapter
unfolding Maps.lookup text_eq lookup
endpoint_found = refl

start-IsGuarded_example :
    (ac : AdapterConfig) × (ranges : HasRanges textual ac) × (a : Text) × (p : Text) × (Maps.lookup
        (codes "africastalking")
        guarded_config.adapters
      ≡ some ac)
    × (client_addr plain (behind (AfricasTalking.africastalking one_form) ranges) posted ≡ some a)
    × In p ranges.allowed
    × (plain.contains p a ≡ true)
start-IsGuarded_example =
    start-IsGuarded plain textual map_client https_only guarded_loader adapters [] started_gateway
      (codes "africastalking") (AfricasTalking.africastalking one_form) served_adapter posted starts
      named guarded_config-HasDistinctKeys known needed endpoint_found passed
