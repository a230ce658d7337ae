-- ===== src/Gateway/Start/Parts.antt =====
-- gateway/cmd/gateway/main.go: what holds of a gateway that starts.
use openussd.Prelude.{
  Option, some, true, ◌≡◌, sym, ◌∙◌, subst, ok, map_err, >>=-eq-ok, map_err-eq-ok, In,
}
use openussd.Strings.{Text}
use openussd.Maps
use openussd.Maps.{Map, HasDistinctKeys}
use openussd.Tenant.Router.{new_router}
use openussd.Tenant.Router.Table.{ok-injective}
use openussd.Session.Redis.{Client}
use openussd.Adapter.{Adapter, needs_allowlist, HttpRequest}
use openussd.Adapter.TrustedProxy.{Network, client_addr}
use openussd.Adapter.TrustedProxy.Prefixes.{Prefixes}
use openussd.Adapter.Registry.{lookup}
use openussd.Config.{AdapterConfig, Loader, load_config}
use openussd.Gateway.{wire}
use openussd.Gateway.Wiring.{IsNamed}
use openussd.Gateway.Guards.{HasRanges, behind, wire-IsGuarded}
use openussd.Gateway.Start.{new_session_store, endpoint, Started, start}
use openussd.Gateway.Start.Endpoints.{lookup-mount_names}

module _ {Addr Prefix : Type 0} (net : Network Addr Prefix) (netip : Prefixes Addr Prefix)
    (client : Client) (parse_scheme : Text → Option Text) (l : Loader)
    (adapters : Map Adapter) where
  -- The parts of a gateway, made of one configuration.
  pub record IsStarted (path : Text) (g : Started client) : Type 0 where
    pub loaded : load_config l path ≡ ok g.config
    pub opened : new_session_store client g.config.session ≡ ok g.backend
    pub routes : new_router parse_scheme g.config.tenants ≡ ok g.router
    pub wired : wire net netip adapters g.config ≡ ok g.registry
    pub mounted : (name : Text) → Maps.lookup (endpoint name) g.mounts ≡ lookup g.registry name

  pub start-IsStarted :
      (path : Text) (g : Started client)
      → start net netip client parse_scheme l adapters path ≡ ok g
      → IsStarted path g
  unfolding start
  start-IsStarted path g h =
      let (cfg, h1, k1) = >>=-eq-ok (map_err _ (load_config l path)) _ h in
      let (backend, h2, k2) = >>=-eq-ok (map_err _ (new_session_store client cfg.session)) _ k1 in
      let (router, h3, k3) = >>=-eq-ok (map_err _ (new_router parse_scheme cfg.tenants)) _ k2 in
      let (reg, h4, k4) = >>=-eq-ok (map_err _ (wire net netip adapters cfg)) _ k3 in
      subst (IsStarted path) (ok-injective k4) (record {
        loaded = map_err-eq-ok _ _ h1;
        opened = map_err-eq-ok _ _ h2;
        routes = map_err-eq-ok _ _ h3;
        wired = map_err-eq-ok _ _ h4;
        mounted = lookup-mount_names reg;
      })

  -- Whom a gateway that started listens to: a callback to the path of an adapter which needs an
  -- allowlist, if it passes the check there, comes from an address in one of the ranges that the
  -- loaded configuration lists for the adapter. The keys of the configuration are distinct and the
  -- adapters stand under their own names.
  pub start-IsGuarded :
      (path : Text) (g : Started client) (name : Text) (base a : Adapter) (r : HttpRequest)
      → start net netip client parse_scheme l adapters path ≡ ok g
      → IsNamed adapters
      → HasDistinctKeys g.config.adapters
      → Maps.lookup name adapters ≡ some base
      → needs_allowlist base ≡ true
      → Maps.lookup (endpoint name) g.mounts ≡ some a
      → a.verify r ≡ true
      → (ac : AdapterConfig) × (ranges : HasRanges netip ac) × (addr : Addr) × (p : Prefix)
        × (Maps.lookup name g.config.adapters ≡ some ac)
        × (client_addr net (behind base ranges) r ≡ some addr)
        × In p ranges.allowed
        × (net.contains p addr ≡ true)
  start-IsGuarded path g name base a r h named distinct known needs mounted passed =
      let s = start-IsStarted path g h in
      wire-IsGuarded net netip adapters g.config g.registry name base a r named distinct s.wired
        known needs (sym (s.mounted name) ∙ mounted) passed
