-- ===== src/Tenant/Dispatch.antt =====
-- gateway/internal/tenant/dispatch.go: one delivery to a tenant's webhook. JSON, the HTTP client
-- and HMAC are the parameters; bodies are lists of bytes.
pub mod Sends
pub mod Delivers
use openussd.Prelude.{
  ℕ, ◌+◌, Bool, not, ◌&&◌, Option, none, some, List, [], ltb, leb, ◌==◌, if◌then◌else◌, length,
  take, Result, ok, err, ◌>>=◌, ◌>>◌, map_err,
}
use openussd.Strings.{Text, codes}
use openussd.Maps
use openussd.Maps.{Map}
use openussd.Canonical.Event.{Event, Response, ResponseError, validate_response}
use openussd.Webhook.Envelope.{version, Request, Reply, normalise_state}
use openussd.Webhook.Sign.{sign, header_tenant}
use openussd.Tenant.{Tenant, effective_timeout}

-- 16 << 10
abbrev pub max_tenant_response_bytes : ℕ
max_tenant_response_bytes = 16_384

-- What is handed to the client.
pub record Outbound : Type 0 where
  pub url : Text
  pub headers : Map Text
  pub body : Text
  pub timeout : ℕ

-- What comes back: the bytes of the body, after which the stream ends or breaks.
pub record Answer : Type 0 where
  pub status : ℕ
  pub bytes : Text
  pub broken : Bool

pub data DispatchCause : Type 0 where
  encoding building delivering reading exceeds decoding : DispatchCause
  replied : ℕ → DispatchCause
  response : ResponseError → DispatchCause

pub data DispatchError : Type 0 where
  tenant_error : Text → DispatchCause → DispatchError

-- The payload that is encoded: `Version` is set and `Raw` is cleared. A nil path and an empty one
-- are the same list.
unfoldable pub prepared : Request → Request
prepared payload = record payload { version = version; event = record (payload.event) { raw = [] } }

-- `io.ReadAll(io.LimitReader(body, max+1))` and the test on the length.
unfoldable pub read_up_to : ℕ → Answer → Result DispatchCause Text
read_up_to max a =
    let raw = take (max + 1) a.bytes in
    if a.broken && leb (length a.bytes) max
    then err reading
    else if ltb max (length raw)
    then err exceeds
    else ok raw

unfoldable pub some_or {ℓ} : {A : Type ℓ} {E : Type ℓ} → E → Option A → Result E A
some_or e none = err e
some_or e (some a) = ok a

-- The request that the client is given, signed with HMAC, the parameter.
unfoldable pub outbound : (Text → Text → Text) → ℕ → Tenant → Text → Outbound
outbound hmac_hex now t body =
    let named = Maps.insert header_tenant t.name (
      Maps.insert (codes "User-Agent") (codes "openussd-gateway/0.1")
        (Maps.insert (codes "Content-Type") (codes "application/json") [])) in
    record {
      url = t.webhook_url;
      headers = sign hmac_hex named t.secret now body;
      body = body;
      timeout = effective_timeout t;
    }

-- The steps after the answer is there; `json.Unmarshal` is the parameter.
unfoldable pub accept : (Text → Option Reply) → Answer → Result DispatchCause Reply
unfolding read_up_to some_or
accept decode a = if not (a.status == 200) then err (replied a.status) else (do
  raw ← read_up_to max_tenant_response_bytes a
  out ← some_or decoding (decode raw)
  map_err response (validate_response out.response)
  ok (record out { state = normalise_state out.state }))

-- The code outside: `json.Marshal`, `json.Unmarshal`, HMAC, whether a URL parses, and the client,
-- which fails or answers.
pub record Outside : Type 0 where
  pub encode : Request → Option Text
  pub decode : Text → Option Reply
  pub hmac_hex : Text → Text → Text
  pub is_url : Text → Bool
  pub client : Outbound → Option Answer

module _ (env : Outside) where
  unfoldable pub exchange : ℕ → Tenant → Request → Result DispatchCause Reply
  unfolding some_or accept outbound prepared
  exchange now t payload = do
    body ← some_or encoding (env.encode (prepared payload))
    if env.is_url t.webhook_url then ok tt else err building
    answer ← some_or delivering (env.client (outbound env.hmac_hex now t body))
    accept env.decode answer

  unfoldable pub deliver : ℕ → Tenant → Request → Result DispatchError Reply
  unfolding exchange
  deliver now t payload = map_err (tenant_error t.name) (exchange now t payload)
