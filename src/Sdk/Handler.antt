-- ===== src/Sdk/Handler.antt =====
-- sdk/go/handler.go: an application behind the gateway's webhook protocol.
pub mod Served
use openussd.Prelude.{
  ℕ, ◌+◌, Bool, true, false, not, ◌&&◌, Option, none, some, List, ltb, leb, length, take,
  if◌then◌else◌, Result, ok, err, ◌>>=◌, ◌>>◌, map_err,
}
use openussd.Strings.{Text, codes, text_eq, is_empty}
use openussd.Maps.{Map}
use openussd.Webhook.Envelope.{version, Request, Reply, normalise_state}
use openussd.Webhook.Sign.{SignatureError, verify, default_tolerance}
use openussd.Sdk.App.{App, Codec, TurnError, turn}
use openussd.Canonical.Event.{Response}

-- 256 << 10
abbrev pub max_request_bytes : ℕ
max_request_bytes = 262_144

pub record Inbound : Type 0 where
  pub method : Text
  pub headers : Map Text
  pub body : Text
  pub broken : Bool

-- The statuses that `http.Error` sends.
pub data Refusal : Type 0 where
  method_not_allowed bad_request too_large forbidden unsupported_version internal_error : Refusal

unfoldable pub read_up_to : ℕ → Inbound → Result Refusal Text
read_up_to max r =
    let body = take (max + 1) r.body in
    if r.broken && leb (length r.body) max
    then err bad_request
    else if ltb max (length body)
    then err too_large
    else ok body

abbrev pub is_nil : Option Text → Bool
is_nil none = true
is_nil (some _) = false

unfoldable pub reply_for : Result TurnError (Response × Option Text) → Result Refusal Reply
reply_for (err e) = err internal_error
reply_for (ok (resp, state)) =
    ok (record { response = resp; state = state; clear_state = is_nil state })

-- HMAC and the decoding of a request are the parameters besides those of the application. The reply
-- is encoded after this.
module _ {S : Type 0} (hmac_hex : Text → Text → Text) (decode : Text → Option Request)
    (codec : Codec S) where
  unfoldable pub decoded : Text → Result Refusal Request
  decoded body = elim (decode body) [ none ↦ err bad_request | some req ↦ ok req ]

  unfoldable pub answered : App S → Request → Result Refusal Reply
  unfolding reply_for
  answered a req = reply_for (turn codec a req.event req.turn (normalise_state req.state))

  unfoldable pub serve : App S → Text → ℕ → Inbound → Result Refusal Reply
  unfolding decoded answered
  serve a secret now r =
      if not (text_eq r.method (codes "POST")) then err method_not_allowed else (do
        body ← read_up_to max_request_bytes r
        map_err (λ (e : SignatureError). forbidden)
            (verify hmac_hex r.headers secret body now default_tolerance)
        req ← decoded body
        if not (is_empty req.version) && not (text_eq req.version version)
            then err unsupported_version
            else ok tt
        answered a req)
