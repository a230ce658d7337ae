-- ===== src/Config.antt =====
-- gateway/internal/config/config.go: the gateway's configuration. Reading the file, the parser of
-- YAML and the environment are parameters.
pub mod Expand
pub mod Accepted
use openussd.Prelude.{
  ℕ, zero, Bool, true, false, not, ◌&&◌, ◌||◌, Option, none, some, List, [], ◌∷◌, if◌then◌else◌,
  Result, ok, err, map_err, ◌>>=◌, ◌>>◌, ℤ, pos, negsuc,
}
use openussd.Strings.{Text, codes, is_empty, text_eq, has_prefix}
use openussd.Maps
use openussd.Maps.{Map}
use openussd.Session.{default_ttl}
use openussd.Tenant.{Tenant}
use openussd.Config.Expand.{Node, expand_node}

-- The lifetime is in nanoseconds.
pub record SessionConfig : Type 0 where
  pub backend : Text
  pub redis_url : Text
  pub ttl : ℤ

pub record AdapterConfig : Type 0 where
  pub enabled : Bool
  pub allowed_sources : List Text
  pub trusted_forwarders : List Text

pub record Config : Type 0 where
  pub listen : Text
  pub session : SessionConfig
  pub adapters : Map AdapterConfig
  pub tenants : List Tenant
  pub log_level : Text

abbrev pub or_default : Text → Text → Text
or_default s d = if is_empty s then d else s

abbrev pub ttl_or_default : ℤ → ℤ
ttl_or_default (pos zero) = pos default_ttl
ttl_or_default ttl = ttl

unfoldable pub apply_defaults : Config → Config
apply_defaults c = record c {
  listen = or_default c.listen (codes ":8080");
  log_level = or_default c.log_level (codes "info");
  session = record c.session {
    backend = or_default c.session.backend (codes "memory");
    ttl = ttl_or_default c.session.ttl;
  };
}

pub data ConfigError : Type 0 where
  no_redis_url no_tenants no_adapters : ConfigError
  unknown_backend : Text → ConfigError

-- `enabled` of `Validate` is not 0.
unfoldable pub any_enabled : Map AdapterConfig → Bool
any_enabled [] = false
any_enabled ((name, a) ∷ adapters) = a.enabled || any_enabled adapters

unfoldable pub validate_session : SessionConfig → Result ConfigError Unit
validate_session s =
    if text_eq s.backend (codes "memory")
    then ok tt
    else if text_eq s.backend (codes "redis")
    then (if is_empty s.redis_url then err no_redis_url else ok tt)
    else err (unknown_backend s.backend)

abbrev pub no_tenant : List Tenant → Bool
no_tenant [] = true
no_tenant (t ∷ tenants) = false

unfoldable pub validate_config : Config → Result ConfigError Unit
validate_config c = do
  validate_session c.session
  if no_tenant c.tenants
      then err no_tenants
      else if not (any_enabled c.adapters)
      then err no_adapters
      else ok tt

unfoldable pub simulator_exposed : Config → Bool
simulator_exposed c = elim (Maps.lookup (codes "simulator") c.adapters) [
  | none ↦ false
  | some a ↦
      if not a.enabled
      then false
      else not (has_prefix c.listen (codes "127.0.0.1:"))
        && not (has_prefix c.listen (codes "localhost:"))
]

pub data LoadError : Type 0 where
  unreadable unparseable undecodable : Text → LoadError
  unset : List Text → LoadError
  invalid : ConfigError → LoadError

-- `os.ReadFile`, `yaml.Unmarshal`, `doc.Decode` and `os.LookupEnv`.
pub record Loader : Type 0 where
  pub read_file : Text → Result Text Text
  pub unmarshal : Text → Result Text Node
  pub decode : Node → Result Text Config
  pub lookup_env : Text → Option Text

abbrev pub check_unset : List Text → Result LoadError Unit
check_unset [] = ok tt
check_unset (name ∷ names) = err (unset (name ∷ names))

unfoldable pub load_config : Loader → Text → Result LoadError Config
load_config l path = do
  raw ← map_err unreadable (l.read_file path)
  doc ← map_err unparseable (l.unmarshal raw)
  check_unset (expand_node l.lookup_env doc).1
  cfg ← map_err undecodable (l.decode (expand_node l.lookup_env doc).0)
  map_err invalid (validate_config (apply_defaults cfg))
  ok (apply_defaults cfg)
