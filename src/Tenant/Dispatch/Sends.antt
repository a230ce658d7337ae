-- ===== src/Tenant/Dispatch/Sends.antt =====
-- dispatch.go, webhook/sign.go and webhook/envelope.go: the request that goes out to a tenant, and the
-- state that comes back.
use openussd.Prelude.{
  ℕ, ◌/◌, ◌<◌, ◌≡◌, ◌≢◌, ◌⊎◌, inl, inr, refl, false, Option, none, some, [], ◌∷◌, ◌++◌, sub_ℕ,
  arith, Bool-cases,
}
use openussd.Strings.{Text, codes, is_empty, text_eq, trim_space}
use openussd.Strings.Equal.{is_empty_sound, is_empty-false, text_eq_iff, text_eq_refl}
use openussd.Strconv.{format_int}
use openussd.Maps
use openussd.Maps.Laws.{lookup-insert}
use openussd.Webhook.Envelope.{normalise_state}
use openussd.Webhook.Sign.{
  header_timestamp, header_signature, header_tenant, sign, signature, signed_text, unix_of,
}
use openussd.Tenant.{Tenant, effective_timeout}
use openussd.Tenant.Dispatch.{Outbound, outbound}

-- The Unix time in seconds of a number of nanoseconds since the zero time, as it is printed.
abbrev pub seconds_at : ℕ → Text
seconds_at now = format_int (sub_ℕ (now / 1_000_000_000) 62_135_596_800)

-- The tenant's own timeout, or five seconds if it has none.
abbrev pub IsTimeoutOf : ℕ → ℕ → Type 0
IsTimeoutOf configured timeout =
    ((0 < configured) × (timeout ≡ configured)) ⊎ ((configured ≡ 0) × (timeout ≡ 5_000_000_000))

-- A body that is posted to the tenant under its name, with the time and with the MAC of both.
pub record IsSent (hmac_hex : Text → Text → Text) (now : ℕ) (t : Tenant) (body : Text)
    (sent : Outbound) : Type 0 where
  pub address : sent.url ≡ t.webhook_url
  pub whole : sent.body ≡ body
  pub deadline : IsTimeoutOf t.timeout sent.timeout
  pub named : Maps.lookup (codes "X-OpenUSSD-Tenant") sent.headers ≡ some t.name
  pub stamped : Maps.lookup (codes "X-OpenUSSD-Timestamp") sent.headers ≡ some (seconds_at now)
  pub signed :
      Maps.lookup (codes "X-OpenUSSD-Signature") sent.headers
      ≡ some (codes "v1=" ++ hmac_hex t.secret (seconds_at now ++ b'.' ∷ body))

-- No state is kept for an absent, an empty or a null one, and any other is kept as it is.
abbrev pub IsStateOf : Option Text → Option Text → Type 0
IsStateOf sent kept =
    ((kept ≡ none)
      × ((sent ≡ none)
          ⊎ ((s : Text) × (sent ≡ some s) × ((s ≡ []) ⊎ (trim_space s ≡ codes "null")))))
    ⊎ ((s : Text) × (sent ≡ some s) × (kept ≡ some s) × (s ≢ []) × (trim_space s ≢ codes "null"))

pub normalise_state-IsStateOf : (state : Option Text) → IsStateOf state (normalise_state state)
unfolding normalise_state
normalise_state-IsStateOf none = inl (refl, inl refl)
normalise_state-IsStateOf (some s) = elim (Bool-cases (is_empty s)) [
  | inl nothing ↦ inl (rw nothing refl, inr (s, refl, inl (is_empty_sound s nothing)))
  | inr given ↦ elim (Bool-cases (text_eq (trim_space s) (codes "null"))) [
    | inl null ↦ inl (
      rw (given, null) refl,
      inr (s, refl, inr ((text_eq_iff (trim_space s) (codes "null")).0 null)),
    )
    | inr value ↦ inr (
      s,
      refl,
      rw (given, value) refl,
      is_empty-false s given,
      λ e. absurd (ground (arith, text_eq_iff (trim_space s) (codes "null"))),
    )
  ]
]

effective_timeout-IsTimeoutOf : (t : Tenant) → IsTimeoutOf t.timeout (effective_timeout t)
unfolding effective_timeout
effective_timeout-IsTimeoutOf t = ground arith

signature_other : text_eq header_signature header_timestamp ≡ false
unfolding text_eq
signature_other = refl

signature_tenant : text_eq header_signature header_tenant ≡ false
unfolding text_eq
signature_tenant = refl

timestamp_tenant : text_eq header_timestamp header_tenant ≡ false
unfolding text_eq
timestamp_tenant = refl

pub outbound-IsSent :
    (hmac_hex : Text → Text → Text) (now : ℕ) (t : Tenant) (body : Text)
    → IsSent hmac_hex now t body (outbound hmac_hex now t body)
unfolding outbound sign signature signed_text unix_of
outbound-IsSent hmac_hex now t body = record {
  address = refl;
  whole = refl;
  deadline = effective_timeout-IsTimeoutOf t;
  named =
      rw
        (
          lookup-insert, signature_tenant, lookup-insert, timestamp_tenant, lookup-insert,
          text_eq_refl,
        )
        refl;
  stamped = rw (lookup-insert, signature_other, lookup-insert, text_eq_refl) refl;
  signed = rw (lookup-insert, text_eq_refl) refl;
}
