-- ===== src/Adapter.antt =====
-- gateway/internal/adapter/adapter.go: the interface between a telco and the gateway.
pub mod AfricasTalking
pub mod Simulator
pub mod TrustedProxy
pub mod Registry
use openussd.Prelude.{
  ℕ, ◌+◌, Bool, true, false, ◌&&◌, Option, none, some, List, leb, ltb, if◌then◌else◌, length, take,
  Result, ok, err,
}
use openussd.Strings.{Text}
use openussd.Maps.{Map}
use openussd.Canonical.Event.{Event, EventError, Response, ResponseError}

-- What the adapters read of a request. The body is a stream of bytes that ends or breaks.
pub record HttpRequest : Type 0 where
  pub method : Text
  pub headers : Map Text
  pub forwarded_for : List Text
  pub remote_addr : Text
  pub body : Text
  pub broken : Bool

-- What an adapter writes for a response; the status is 200.
pub record Page : Type 0 where
  pub content_type : Text
  pub text : Text

pub data AdapterError : Type 0 where
  expected_post : Text → AdapterError
  reading_body too_large malformed : AdapterError
  invalid_event : EventError → AdapterError

-- The interfaces `Adapter` and `AllowlistRequirer`: the last field is `none` for an adapter that
-- does not have the latter. `verify` answers whether the check passed.
pub record Adapter : Type 0 where
  pub name : Text
  pub verify : HttpRequest → Bool
  pub parse : ℕ → HttpRequest → Result AdapterError Event
  pub render : Response → Result ResponseError Page
  pub requires_allowlist : Option Bool

unfoldable pub needs_allowlist : Adapter → Bool
needs_allowlist a = elim a.requires_allowlist [ none ↦ false | some required ↦ required ]

-- 64 << 10
abbrev pub max_body_bytes : ℕ
max_body_bytes = 65_536

-- The read with which both adapters start.
unfoldable pub read_body : ℕ → HttpRequest → Result AdapterError Text
read_body max r =
    let raw = take (max + 1) r.body in
    if r.broken && leb (length r.body) max
    then err reading_body
    else if ltb max (length raw)
    then err too_large
    else ok raw
