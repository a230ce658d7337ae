-- ===== src/Gateway/Start.antt =====
-- gateway/cmd/gateway/main.go: what the gateway has before it listens, and the endpoints that it
-- mounts. The mux finds an endpoint by its whole path.
pub mod Endpoints
pub mod Parts
use openussd.Prelude.{
  ℕ, zero, suc, Bool, true, false, ◌&&◌, ◌||◌, Option, none, some, List, [], ◌∷◌, ◌++◌, ltb, ◌==◌,
  if◌then◌else◌, map, Result, ok, err, map_err, ◌>>=◌, ◌>>◌, ℤ, pos, negsuc,
}
use openussd.Strings.{Text, codes, text_eq}
use openussd.Maps
use openussd.Maps.{Map}
use openussd.Session.{Store}
use openussd.Session.Memory.{Memory, with_ttl, new_memory, memory_store}
use openussd.Session.Redis.{
  Redis, Client, SessionJson, ConnectError, with_redis_ttl, new_redis, redis_store,
}
use openussd.Tenant.Router.{RouterError, Router, new_router}
use openussd.Adapter.{Adapter}
use openussd.Adapter.TrustedProxy.{Network}
use openussd.Adapter.TrustedProxy.Prefixes.{Prefixes}
use openussd.Adapter.Registry.{Registry, lookup}
use openussd.Config.{SessionConfig, Config, Loader, LoadError, load_config}
use openussd.Gateway.{WiringError, wire}

-- The store that was opened, with its first state.
pub data Backend (client : Client) : Type 0 where
  in_memory : Memory → Backend client
  in_redis : Redis → client.Server → Backend client

-- A lifetime that is not positive counts as 0.
abbrev pub lifetime : ℤ → ℕ
lifetime (pos ttl) = ttl
lifetime (negsuc n) = 0

unfoldable pub new_session_store :
    (client : Client) → SessionConfig → Result ConnectError (Backend client)
unfolding new_redis
new_session_store client s =
    if text_eq s.backend (codes "redis")
    then (do
      opened ← new_redis client s.redis_url (with_redis_ttl (lifetime s.ttl) ∷ [])
      ok (in_redis opened.0 opened.1))
    else ok (in_memory (new_memory (with_ttl (lifetime s.ttl) ∷ [])))

abbrev pub store_of : {client : Client} → SessionJson → Backend client → Store
store_of json (in_memory m) = memory_store
store_of {client} json (in_redis r σ) = redis_store client json r

-- The order of Go's strings; that of the bytes is that of the runes.
unfoldable pub text_lt : Text → Text → Bool
text_lt s [] = false
text_lt [] (d ∷ t) = true
text_lt (c ∷ s) (d ∷ t) = let rest = text_lt s t in ltb c d || (c == d && rest)

unfoldable pub insert_name : Text → List Text → List Text
unfolding text_lt
insert_name name [] = name ∷ []
insert_name name (n ∷ names) =
    let rest = insert_name name names in if text_lt n name then n ∷ rest else name ∷ n ∷ names

unfoldable pub sort_names : List Text → List Text
unfolding insert_name
sort_names [] = []
sort_names (n ∷ names) = insert_name n (sort_names names)

unfoldable pub keys : Map Adapter → List Text
keys [] = []
keys ((name, a) ∷ adapters) = name ∷ keys adapters

-- `Names` of the registry.
unfoldable pub names : Registry → List Text
unfolding sort_names keys
names reg = sort_names (keys reg.adapters)

abbrev pub endpoint : Text → Text
endpoint name = codes "/ussd/" ++ name

-- The loop that mounts the adapters; every name of the registry is found in it.
unfoldable pub mount : Registry → List Text → Map Adapter
unfolding lookup
mount reg [] = []
mount reg (name ∷ names) =
    let rest = mount reg names in
    elim (lookup reg name) [ none ↦ rest | some a ↦ (endpoint name, a) ∷ rest ]

pub data StartError : Type 0 where
  bad_config : LoadError → StartError
  no_store : ConnectError → StartError
  bad_tenants : RouterError → StartError
  bad_adapters : WiringError → StartError

pub record Started (client : Client) : Type 0 where
  pub config : Config
  pub backend : Backend client
  pub router : Router
  pub registry : Registry
  pub mounts : Map Adapter

module _ {Addr Prefix : Type 0} (net : Network Addr Prefix) (netip : Prefixes Addr Prefix)
    (client : Client) (parse_scheme : Text → Option Text) where
  -- `run`, up to the server. A store that was opened is lost where a later step fails, which closes it.
  unfoldable pub start : Loader → Map Adapter → Text → Result StartError (Started client)
  unfolding mount names
  start l adapters path = do
    cfg ← map_err bad_config (load_config l path)
    backend ← map_err no_store (new_session_store client cfg.session)
    router ← map_err bad_tenants (new_router parse_scheme cfg.tenants)
    reg ← map_err bad_adapters (wire net netip adapters cfg)
    ok (record {
      config = cfg;
      backend = backend;
      router = router;
      registry = reg;
      mounts = mount reg (names reg);
    })
