-- ===== src/Tenant/Router/Accepted.antt =====
-- `Validate` of gateway/internal/tenant/tenant.go: what it asks of a tenant, and of those of a router.
use openussd.Prelude.{
  ℕ, ◌+◌, ◌≡◌, refl, sym, ◌∙◌, ap, subst, ◌⊎◌, inl, inr, ◌↔◌, false, not, ◌&&◌, Option, none, some,
  List, [], ◌∷◌, if◌then◌else◌, Result, ok, err, ◌>>◌, map_err, In, All, arith, Option-cases,
  Bool-cases, >>=-eq-ok, if_err-eq-ok, if_err_pass, map_err-eq-ok,
}
use openussd.Strings.{Text, codes, text_eq, is_empty}
use openussd.Strings.Equal.{text_eq_iff}
use openussd.Canonical.Event.{Event}
use openussd.Tenant.{
  Tenant, TenantError, validate_prefix, validate_url, validate, bad_scheme, unparseable_url,
}
use openussd.Tenant.Router.{
  invalid, Router, Building, nothing_built, add_tenant, add_tenants, new_router, route,
}
use openussd.Tenant.Router.Route.{route-IsRouted}

-- A tenant that requests can be routed to, sent to and signed for.
pub record IsUsable (parse_scheme : Text → Option Text) (t : Tenant) : Type 0 where
  pub named : is_empty t.name ≡ false
  pub dialled : is_empty t.shortcode ≡ false
  pub addressed : is_empty t.webhook_url ≡ false
  pub secret : is_empty t.secret ≡ false
  pub scheme : Text
  pub parsed : parse_scheme t.webhook_url ≡ some scheme
  pub over_http : (scheme ≡ codes "http") ⊎ (scheme ≡ codes "https")
  pub segments : All (λ seg. is_empty seg ≡ false) t.prefix

validate_prefix_iff :
    (name : Text) (i : ℕ) (prefix : List Text)
    → (validate_prefix name i prefix ≡ ok tt) ↔ All (λ seg. is_empty seg ≡ false) prefix
unfolding validate_prefix
validate_prefix_iff name i [] = ((λ h. tt), λ h. refl)
validate_prefix_iff name i (seg ∷ prefix) =
    let (to, from) = validate_prefix_iff name (i + 1) prefix in
    (
      λ h. let (present, rest) = if_err-eq-ok (is_empty seg) _ _ h in (present, to rest),
      λ h. if_err_pass (is_empty seg) _ _ h.0 ∙ from h.1,
    )

is_http :
    (s : Text)
    → (not (text_eq s (codes "http")) && not (text_eq s (codes "https"))) ≡ false
    → (s ≡ codes "http") ⊎ (s ≡ codes "https")
is_http s h = elim (Bool-cases (text_eq s (codes "http"))) [
  | inl plain ↦ inl ((text_eq_iff s (codes "http")).0 plain)
  | inr other ↦ inr ((text_eq_iff s (codes "https")).0 (ground (arith, h, other)))
]

http_is :
    (s : Text)
    → (s ≡ codes "http") ⊎ (s ≡ codes "https")
    → (not (text_eq s (codes "http")) && not (text_eq s (codes "https"))) ≡ false
http_is s (inl e) = ground (arith, (text_eq_iff s (codes "http")).1 e)
http_is s (inr e) = ground (arith, (text_eq_iff s (codes "https")).1 e)

module _ (parse_scheme : Text → Option Text) where
  check_scheme : Tenant → Option Text → Result TenantError Unit
  check_scheme t none = err (unparseable_url t.name)
  check_scheme t (some s) =
      if not (text_eq s (codes "http")) && not (text_eq s (codes "https"))
      then err (bad_scheme t.name s)
      else ok tt

  validate_url-eq-ok :
      (t : Tenant)
      → validate_url parse_scheme t ≡ ok tt
      → (s : Text) × (parse_scheme t.webhook_url ≡ some s)
        × ((s ≡ codes "http") ⊎ (s ≡ codes "https"))
  unfolding validate_url
  validate_url-eq-ok t h = elim (Option-cases (parse_scheme t.webhook_url)) [
    | inl bad ↦ absurd (ground (arith, rw (bad, validate_url) at h))
    | inr (s, parsed) ↦
        let (good, _) =
          if_err-eq-ok _ (bad_scheme t.name s) (ok tt) (rw (parsed, validate_url) at h) in
        (s, parsed, is_http s good)
  ]

  validate_url_of :
      (t : Tenant) (s : Text)
      → parse_scheme t.webhook_url ≡ some s
      → (s ≡ codes "http") ⊎ (s ≡ codes "https")
      → validate_url parse_scheme t ≡ ok tt
  unfolding validate_url
  validate_url_of t s parsed good = rw (parsed, validate_url, http_is s good)

  validate-IsUsable : (t : Tenant) → validate parse_scheme t ≡ ok tt → IsUsable parse_scheme t
  unfolding validate
  validate-IsUsable t h =
      let (named, h1) = if_err-eq-ok _ _ _ h in
      let (dialled, h2) = if_err-eq-ok _ _ _ h1 in
      let (addressed, h3) = if_err-eq-ok _ _ _ h2 in
      let (secret, h4) = if_err-eq-ok _ _ _ h3 in
      let (_, url, h5) = >>=-eq-ok (validate_url parse_scheme t) _ h4 in
      let (s, parsed, good) = validate_url-eq-ok t url in
      record {
        named = named;
        dialled = dialled;
        addressed = addressed;
        secret = secret;
        scheme = s;
        parsed = parsed;
        over_http = good;
        segments = (validate_prefix_iff t.name 0 t.prefix).0 h5;
      }

  IsUsable-validate : (t : Tenant) → IsUsable parse_scheme t → validate parse_scheme t ≡ ok tt
  unfolding validate
  IsUsable-validate t u =
      if_err_pass _ _ _ u.named
      ∙ (if_err_pass _ _ _ u.dialled
          ∙ (if_err_pass _ _ _ u.addressed
              ∙ (if_err_pass _ _ _ u.secret
                  ∙ (ap (λ (r : Result TenantError Unit). r >> validate_prefix t.name 0 t.prefix)
                        (validate_url_of t u.scheme u.parsed u.over_http)
                      ∙ (validate_prefix_iff t.name 0 t.prefix).1 u.segments))))

  -- `Validate` accepts a tenant exactly if its name, shortcode, URL and secret are not empty, the URL
  -- parses with the scheme http or https, and no segment of the prefix is empty.
  pub validate_iff : (t : Tenant) → (validate parse_scheme t ≡ ok tt) ↔ IsUsable parse_scheme t
  validate_iff t = (validate-IsUsable t, IsUsable-validate t)

  add_tenant-valid :
      (b b' : Building) (t : Tenant)
      → add_tenant parse_scheme b t ≡ ok b'
      → validate parse_scheme t ≡ ok tt
  unfolding add_tenant
  add_tenant-valid b b' t h =
      let (_, fine, _) = >>=-eq-ok (map_err invalid (validate parse_scheme t)) _ h in
      map_err-eq-ok invalid _ fine

  add_tenants-valid :
      (ts : List Tenant) (b b' : Building)
      → add_tenants parse_scheme b ts ≡ ok b'
      → (t : Tenant) → In t ts
      → validate parse_scheme t ≡ ok tt
  unfolding add_tenants
  add_tenants-valid [] b b' h t m = elim m [ ]
  add_tenants-valid (u ∷ ts) b b' h t m =
      let (c, step, rest) = >>=-eq-ok (add_tenant parse_scheme b u) _ h in
      elim m [
        | inl it ↦
            subst (λ v. validate parse_scheme v ≡ ok tt) (sym it) (add_tenant-valid b c u step)
        | inr there ↦ add_tenants-valid ts c b' rest t there
      ]

-- Whatever tenant a router answers with, its name, shortcode, URL and secret are not empty, its URL
-- parses with the scheme http or https, and no segment of its prefix is empty. The router is one that
-- `NewRouter` returned.
pub route-IsUsable :
    (parse_scheme : Text → Option Text) (tenants : List Tenant) (r : Router) (ev : Event)
    (t : Tenant) (routed : Event)
    → new_router parse_scheme tenants ≡ ok r
    → route r ev ≡ ok (t, routed)
    → IsUsable parse_scheme t
unfolding new_router
route-IsUsable parse_scheme tenants r ev t routed built h =
    let (b, first, rest) = >>=-eq-ok (add_tenants parse_scheme nothing_built tenants) _ built in
    let answer = route-IsRouted parse_scheme tenants r ev t routed (unfold new_router in built) h in
    validate-IsUsable parse_scheme t
      (add_tenants-valid parse_scheme tenants nothing_built b first t answer.configured)
