-- ===== src/Tenant/Dispatch/Delivers.antt =====
-- `Deliver` of gateway/internal/tenant/dispatch.go: what a delivery that succeeds went through.
use openussd.Prelude.{
  ℕ, ◌+◌, ◌*◌, ◌/◌, ◌≤◌, ◌≡◌, sym, ◌∙◌, ap, subst, [], true, false, not, ◌&&◌, Option, none, some,
  ltb, leb, ◌==◌, ==→eq, length, take, take_all, length-take, ok, err, >>=-eq-ok, if_err-eq-ok,
  map_err, map_err-eq-ok, not-eq-false, if◌then◌else◌, arith,
}
use openussd.Strings.{Text, codes, is_empty}
use openussd.Strconv.{max_int64}
use openussd.Canonical.Encoding.{fits_screen}
use openussd.Canonical.Event.{validate_response}
use openussd.Canonical.Event.Valid.{validate_response_iff}
use openussd.Webhook.Envelope.{Request, Reply, normalise_state}
use openussd.Webhook.Sign.{verify, effective_tolerance}
use openussd.Webhook.Sign.Accepts.{verify-sign}
use openussd.Tenant.{Tenant}
use openussd.Tenant.Router.Table.{ok-injective}
use openussd.Tenant.Dispatch.Sends.{IsSent, IsStateOf, normalise_state-IsStateOf, outbound-IsSent}
use openussd.Tenant.Dispatch.{
  Outbound, Answer, tenant_error, encoding, building, delivering, decoding, response, Outside,
  max_tenant_response_bytes, prepared, read_up_to, some_or, outbound, accept, exchange, deliver,
}

some_or-eq-ok : {E A : Type 0} (e : E) (o : Option A) {a : A} → some_or e o ≡ ok a → o ≡ some a
unfolding some_or
some_or-eq-ok e none h = absurd (ground arith)
some_or-eq-ok e (some b) h = ground arith

read_up_to-eq-ok :
    (max : ℕ) (a : Answer) (raw : Text)
    → read_up_to max a ≡ ok raw
    → (length a.bytes ≤ max) × (raw ≡ a.bytes)
unfolding read_up_to
read_up_to-eq-ok max a raw h =
    let (whole, h1) = if_err-eq-ok (a.broken && leb (length a.bytes) max) _ _ h in
    let (small, h2) =
      if_err-eq-ok (ltb max (length (take (max + 1) a.bytes))) _ (ok (take (max + 1) a.bytes)) h1 in
    let bound : length a.bytes ≤ max = ground (arith, length-take (max + 1) a.bytes, small) in
    (bound, sym (ok-injective h2) ∙ take_all (max + 1) a.bytes (omega (arith, bound)))

-- The payload as the tenant gets it: under version 1, and without the body that the network sent.
abbrev pub told : Request → Request
told payload = record {
  version = codes "1";
  event = record (payload.event) { raw = [] };
  turn = payload.turn;
  state = payload.state;
}

-- A delivery that went through: what was sent, what came back, and what became of it.
pub record IsDelivered (env : Outside) (now : ℕ) (t : Tenant) (payload : Request) (reply : Reply)
    : Type 0 where
  pub body : Text
  pub sent : Outbound
  pub answer : Answer
  pub decoded : Reply
  pub encoded : env.encode (told payload) ≡ some body
  pub goes_out : IsSent env.hmac_hex now t body sent
  pub answered : env.client sent ≡ some answer
  pub status : answer.status ≡ 200
  pub bounded : length answer.bytes ≤ 16_384
  pub read : env.decode answer.bytes ≡ some decoded
  pub response : reply.response ≡ decoded.response
  pub clears : reply.clear_state ≡ decoded.clear_state
  pub state : IsStateOf decoded.state reply.state
  pub fits : fits_screen reply.response.body ≡ true

abbrev IsAccepted : (Text → Option Reply) → Answer → Reply → Reply → Type 0
IsAccepted decode a decoded reply =
    (a.status ≡ 200)
    × (length a.bytes ≤ max_tenant_response_bytes)
    × (decode a.bytes ≡ some decoded)
    × (reply ≡ record decoded { state = normalise_state decoded.state })
    × (fits_screen decoded.response.body ≡ true)

accept-IsAccepted :
    (decode : Text → Option Reply) (a : Answer) (reply : Reply)
    → accept decode a ≡ ok reply
    → (decoded : Reply) × IsAccepted decode a decoded reply
unfolding accept
accept-IsAccepted decode a reply h =
    let (status, h1) = if_err-eq-ok (not (a.status == 200)) _ _ h in
    let (raw, read, h2) = >>=-eq-ok (read_up_to max_tenant_response_bytes a) _ h1 in
    let (out, decoded, h3) = >>=-eq-ok (some_or decoding (decode raw)) _ h2 in
    let (_, fits, h4) = >>=-eq-ok (map_err response (validate_response out.response)) _ h3 in
    let (bounded, same) = read_up_to-eq-ok max_tenant_response_bytes a raw read in
    (
      out,
      (
        ==→eq a.status 200 (not-eq-false _ status),
        bounded,
        ap decode (sym same) ∙ some_or-eq-ok decoding (decode raw) decoded,
        sym (ok-injective h4),
        (validate_response_iff out.response).0 (map_err-eq-ok response _ fits),
      ),
    )

exchange-IsDelivered :
    (env : Outside) (now : ℕ) (t : Tenant) (payload : Request) (reply : Reply)
    → exchange env now t payload ≡ ok reply
    → IsDelivered env now t payload reply
unfolding exchange prepared
exchange-IsDelivered env now t payload reply h =
    let (body, encoded, h1) = >>=-eq-ok (some_or encoding (env.encode (prepared payload))) _ h in
    let (_, _, h2) = >>=-eq-ok (if env.is_url t.webhook_url then ok tt else err building) _ h1 in
    let (answer, answered, h3) =
      >>=-eq-ok (some_or delivering (env.client (outbound env.hmac_hex now t body))) _ h2 in
    let (decoded, (status, bounded, read, normalised, fits)) =
      accept-IsAccepted env.decode answer reply h3 in
    record {
      body = body;
      sent = outbound env.hmac_hex now t body;
      answer = answer;
      decoded = decoded;
      encoded = some_or-eq-ok encoding (env.encode (prepared payload)) encoded;
      goes_out = outbound-IsSent env.hmac_hex now t body;
      answered = some_or-eq-ok delivering (env.client (outbound env.hmac_hex now t body)) answered;
      status = status;
      bounded = bounded;
      read = read;
      response = ap (λ (r : Reply). r.response) normalised;
      clears = ap (λ (r : Reply). r.clear_state) normalised;
      state =
          subst (IsStateOf decoded.state) (sym (ap (λ (r : Reply). r.state) normalised))
            (normalise_state-IsStateOf decoded.state);
      fits = subst (λ (r : Reply). fits_screen r.response.body ≡ true) (sym normalised) fits;
    }

-- A reply that `Deliver` returns was decoded from at most 16384 bytes of an answer with status 200 to
-- a request that was posted to the tenant's webhook with its timeout: the encoded payload, under
-- version 1 and without the raw body, with the tenant's name, the time in seconds, and the MAC of
-- the time and the body under its secret in the headers. It has the decoded response, whose screen
-- fits, and the decoded state, where an empty or null one is none.
pub deliver-IsDelivered :
    (env : Outside) (now : ℕ) (t : Tenant) (payload : Request) (reply : Reply)
    → deliver env now t payload ≡ ok reply
    → IsDelivered env now t payload reply
unfolding deliver
deliver-IsDelivered env now t payload reply h =
    exchange-IsDelivered env now t payload reply (map_err-eq-ok (tenant_error t.name) _ h)

-- The tenant that holds the secret accepts the request that is sent to it, at every time that is
-- not before the time of sending nor after its whole second by more than the tolerance. The secret
-- is not empty and the time is an `int64` number of seconds.
verify-outbound :
    (hmac_hex : Text → Text → Text) (t : Tenant) (body : Text) (sent now tolerance : ℕ)
    → is_empty t.secret ≡ false
    → sent / 1_000_000_000 ≤ max_int64
    → sent ≤ now + effective_tolerance tolerance
    → now ≤ sent / 1_000_000_000 * 1_000_000_000 + effective_tolerance tolerance
    → verify hmac_hex (outbound hmac_hex sent t body).headers t.secret body now tolerance ≡ ok tt
unfolding outbound
verify-outbound hmac_hex t body sent now tolerance secret fits new old =
    verify-sign hmac_hex _ t.secret body sent now tolerance secret fits new old
