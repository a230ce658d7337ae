-- ===== src/Config/Accepted.antt =====
-- What the configuration is with which the gateway starts.
use openussd.Prelude.{
  zero, suc, ◌≡◌, refl, sym, if◌then◌else◌, ◌≢◌, ◌⊎◌, true, false, not, [], ◌∷◌, arith, ok, err,
  map_err, ℤ, pos, negsuc, >>=-eq-ok, map_err-eq-ok, if_err-eq-ok, subst,
}
use openussd.Strings.{Text, codes, is_empty, text_eq}
use openussd.Tenant.Router.Table.{ok-injective}
use openussd.Config
use openussd.Config.{
  Config, SessionConfig, AdapterConfig, Loader, load_config, apply_defaults, validate_config,
  validate_session, any_enabled, ttl_or_default, or_default, no_tenant, check_unset,
}
use openussd.Config.Expand.{Node, expand_node}
use openussd.Config.Expand.Sets.{ExpandsNode, expand_node-ExpandsNode}

pub record IsComplete (c : Config) : Type 0 where
  pub listens : is_empty c.listen ≡ false
  pub logs : is_empty c.log_level ≡ false
  pub lives : c.session.ttl ≢ pos 0
  pub stores :
      (text_eq c.session.backend (codes "memory") ≡ true)
      ⊎ ((text_eq c.session.backend (codes "redis") ≡ true)
          × (is_empty c.session.redis_url ≡ false))
  pub serves : no_tenant c.tenants ≡ false
  pub enters : any_enabled c.adapters ≡ true

or_default-full : (s d : Text) → is_empty d ≡ false → is_empty (or_default s d) ≡ false
or_default-full [] d h = h
or_default-full (c ∷ s) d h = refl

ttl_or_default-lives : (t : ℤ) → ttl_or_default t ≢ pos 0
ttl_or_default-lives (pos zero) e = absurd (ground arith)
ttl_or_default-lives (pos (suc n)) e = absurd (ground arith)
ttl_or_default-lives (negsuc n) e = absurd (ground arith)

validate_session-eq-ok :
    (s : SessionConfig)
    → validate_session s ≡ ok tt
    → (text_eq s.backend (codes "memory") ≡ true)
      ⊎ ((text_eq s.backend (codes "redis") ≡ true) × (is_empty s.redis_url ≡ false))
unfolding validate_session
validate_session-eq-ok s h = ground arith

validate_config-apply_defaults :
    (c : Config) → validate_config (apply_defaults c) ≡ ok tt → IsComplete (apply_defaults c)
unfolding validate_config apply_defaults
validate_config-apply_defaults c h =
    let (u, session, rest) = >>=-eq-ok (validate_session (apply_defaults c).session) _ h in
    let (tenants, more) =
      if_err-eq-ok (no_tenant c.tenants) Config.no_tenants
        (if not (any_enabled c.adapters) then err Config.no_adapters else ok tt) rest in
    let (adapters, _) = if_err-eq-ok (not (any_enabled c.adapters)) Config.no_adapters _ more in
    record {
      listens = or_default-full c.listen _ refl;
      logs = or_default-full c.log_level _ refl;
      lives = ttl_or_default-lives c.session.ttl;
      stores = validate_session-eq-ok _ session;
      serves = tenants;
      enters = ground arith;
    }

check_unset-eq-ok : (names : _) → check_unset names ≡ ok tt → names ≡ []
check_unset-eq-ok [] h = refl
check_unset-eq-ok (n ∷ ns) h = absurd (ground arith)

-- A configuration that loads is that of the document in the file with the defaults applied, where each
-- scalar of the document has every reference ${NAME} replaced by that environment variable, which is
-- set, and it is complete: there is an address to listen on, a level of the log, a lifetime that is
-- not 0, a known store with its URL if it is Redis, a tenant, and an enabled adapter.
pub load_config-IsComplete :
    (l : Loader) (path : Text) (cfg : Config)
    → load_config l path ≡ ok cfg
    → IsComplete cfg
      × (raw : Text) × (doc : Node) × (expanded : Node) × (read : Config) × (l.read_file path
          ≡ ok raw)
      × (l.unmarshal raw ≡ ok doc)
      × ExpandsNode l.lookup_env doc expanded
      × (l.decode expanded ≡ ok read)
      × (cfg ≡ apply_defaults read)
unfolding load_config
load_config-IsComplete l path cfg h =
    let (raw, h1, k1) = >>=-eq-ok (map_err _ (l.read_file path)) _ h in
    let (doc, h2, k2) = >>=-eq-ok (map_err _ (l.unmarshal raw)) _ k1 in
    let (u, h3, k3) = >>=-eq-ok (check_unset (expand_node l.lookup_env doc).1) _ k2 in
    let (read, h4, k4) = >>=-eq-ok (map_err _ (l.decode (expand_node l.lookup_env doc).0)) _ k3 in
    let (v, h5, k5) = >>=-eq-ok (map_err _ (validate_config (apply_defaults read))) _ k4 in
    (
      subst IsComplete (ok-injective k5)
          (validate_config-apply_defaults read (map_err-eq-ok _ _ h5)),
      raw,
      doc,
      (expand_node l.lookup_env doc).0,
      read,
      map_err-eq-ok _ _ h1,
      map_err-eq-ok _ _ h2,
      expand_node-ExpandsNode l.lookup_env doc (check_unset-eq-ok _ h3),
      map_err-eq-ok _ _ h4,
      sym (ok-injective k5),
    )
