-- ===== src/Webhook/Envelope.antt =====
-- webhook/envelope.go: the request that the gateway posts to a tenant and the tenant's reply. A
-- nil `json.RawMessage` is `none`.
use openussd.Prelude.{ℕ, Bool, Option, none, some, ◌||◌, if◌then◌else◌}
use openussd.Strings.{Text, codes, text_eq, is_empty, trim_space}
use openussd.Canonical.Event.{Event, Response}

abbrev pub version : Text
version = codes "1"

pub record Request : Type 0 where
  pub version : Text
  pub event : Event
  pub turn : ℕ
  pub state : Option Text

pub record Reply : Type 0 where
  pub response : Response
  pub state : Option Text
  pub clear_state : Bool

unfoldable pub normalise_state : Option Text → Option Text
normalise_state none = none
normalise_state (some state) =
    if is_empty state || text_eq (trim_space state) (codes "null") then none else some state
