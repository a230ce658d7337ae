-- ===== src/Tenant.antt =====
-- gateway/internal/tenant/tenant.go: the applications behind the gateway.
pub mod Router
pub mod Dispatch
use openussd.Prelude.{
  ℕ, suc, ◌+◌, Bool, true, false, not, ◌&&◌, ◌||◌, Option, none, some, List, [], ◌∷◌, ltb,
  if◌then◌else◌, Result, ok, err, ◌>>=◌, ◌>>◌,
}
use openussd.Strings.{Text, codes, is_empty, text_eq}

-- Five seconds, in nanoseconds.
abbrev pub default_webhook_timeout : ℕ
default_webhook_timeout = 5_000_000_000

-- A timeout that is not positive is 0 here.
pub record Tenant : Type 0 where
  pub name : Text
  pub shortcode : Text
  pub prefix : List Text
  pub webhook_url : Text
  pub secret : Text
  pub timeout : ℕ

pub data TenantError : Type 0 where
  no_name : TenantError
  no_shortcode no_webhook_url no_secret unparseable_url : Text → TenantError
  bad_scheme : Text → Text → TenantError
  empty_segment : Text → ℕ → TenantError

-- The loop of `Validate` over the prefix.
unfoldable pub validate_prefix : Text → ℕ → List Text → Result TenantError Unit
validate_prefix name i [] = ok tt
validate_prefix name i (seg ∷ prefix) =
    if is_empty seg then err (empty_segment name i) else validate_prefix name (i + 1) prefix

-- `url.Parse` is the parameter: the scheme of the URL, or `none` if it does not parse.
module _ (parse_scheme : Text → Option Text) where
  unfoldable pub validate_url : Tenant → Result TenantError Unit
  validate_url t = elim (parse_scheme t.webhook_url) [
    | none ↦ err (unparseable_url t.name)
    | some scheme ↦
        if not (text_eq scheme (codes "http")) && not (text_eq scheme (codes "https"))
        then err (bad_scheme t.name scheme)
        else ok tt
  ]

  unfoldable pub validate : Tenant → Result TenantError Unit
  unfolding validate_prefix validate_url
  validate t =
      if is_empty t.name
      then err no_name
      else if is_empty t.shortcode
      then err (no_shortcode t.name)
      else if is_empty t.webhook_url
      then err (no_webhook_url t.name)
      else if is_empty t.secret
      then err (no_secret t.name)
      else (do validate_url t; validate_prefix t.name 0 t.prefix)

unfoldable pub effective_timeout : Tenant → ℕ
effective_timeout t = if ltb 0 t.timeout then t.timeout else default_webhook_timeout
