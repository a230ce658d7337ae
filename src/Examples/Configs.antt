-- ===== src/Examples/Configs.antt =====
-- A configuration whose URL comes from the environment.
use openussd.Prelude.{◌≡◌, refl, true, some, [], ◌∷◌, Result, ok, err, pos, zero}
use openussd.Strings.{Text, codes}
use openussd.Config.{Config, SessionConfig, AdapterConfig, Loader, load_config, apply_defaults}
use openussd.Config.Expand.{Node, scalar, branch, expand_node}
use openussd.Config.Expand.Sets.{ExpandsNode}
use openussd.Config.Accepted.{IsComplete, load_config-IsComplete}
use openussd.Examples.Data.{two_tenants}

abbrev simulator_only : Text → Config
simulator_only url = record {
  listen = [];
  session = record { backend = codes "redis"; redis_url = url; ttl = pos zero };
  adapters =
      (codes "simulator", record { enabled = true; allowed_sources = []; trusted_forwarders = [] })
      ∷ [];
  tenants = two_tenants;
  log_level = [];
}

abbrev decode_url : Node → Result Text Config
decode_url (scalar url) = ok (simulator_only url)
decode_url (branch kind content) = err (codes "mapping")

abbrev one_value : Loader
one_value = record {
  read_file = λ path. ok (codes "redis://${HOST}:1");
  unmarshal = λ raw. ok (scalar raw);
  decode = decode_url;
  lookup_env = λ name. some (codes "db");
}

abbrev loaded : Config
loaded = apply_defaults (simulator_only (codes "redis://db:1"))

one_value-loads : load_config one_value [] ≡ ok loaded
unfolding load_config expand_node openussd.Config.validate_config apply_defaults
    openussd.Config.validate_session openussd.Config.any_enabled openussd.Config.Expand.expand_from
    openussd.Strings.text_eq
one_value-loads = refl

load_config-IsComplete_example :
    IsComplete loaded
    × (raw : Text) × (doc : Node) × (expanded : Node) × (read : Config) × (one_value.read_file []
        ≡ ok raw)
    × (one_value.unmarshal raw ≡ ok doc)
    × ExpandsNode one_value.lookup_env doc expanded
    × (one_value.decode expanded ≡ ok read)
    × (loaded ≡ apply_defaults read)
load_config-IsComplete_example = load_config-IsComplete one_value [] loaded one_value-loads
