-- ===== src/Adapter/Simulator.antt =====
-- gateway/internal/adapter/simulator/adapter.go: the canonical shapes in JSON.
pub mod Fields
use openussd.Prelude.{
  ℕ, true, false, not, Option, none, some, List, [], ltb, length, if◌then◌else◌, Result, ok, err,
  ◌>>=◌, ◌>>◌, map_err,
}
use openussd.Strings.{Text, codes, text_eq, is_empty}
use openussd.Canonical.Event.{
  Phase, phase_begin, phase_continue, Event, validate, Response, ResponseError, validate_response,
}
use openussd.Adapter.{
  HttpRequest, Page, Adapter, AdapterError, expected_post, malformed, invalid_event, max_body_bytes,
  read_body,
}

abbrev pub name : Text
name = codes "simulator"

pub record SimRequest : Type 0 where
  pub session_id : Text
  pub msisdn : Text
  pub shortcode : Text
  pub path : List Text
  pub phase : Phase

unfoldable pub inferred_phase : SimRequest → Phase
inferred_phase r =
    if is_empty r.phase
    then (if ltb 0 (length r.path) then phase_continue else phase_begin)
    else r.phase

unfoldable pub event_of : ℕ → Text → SimRequest → Event
unfolding inferred_phase
event_of now raw r = record {
  mno = name;
  session_id = r.session_id;
  msisdn = r.msisdn;
  shortcode = r.shortcode;
  path = r.path;
  phase = inferred_phase r;
  network_code = [];
  received_at = now;
  raw = raw;
}

-- The parameters are the decoding of a request and the encoding of a response in JSON.
module _ (decode : Text → Option SimRequest) (encode : Response → Text) where
  unfoldable pub parse_json : Text → Result AdapterError SimRequest
  parse_json raw = elim (decode raw) [ none ↦ err malformed | some r ↦ ok r ]

  unfoldable pub parse : ℕ → HttpRequest → Result AdapterError Event
  unfolding parse_json event_of
  parse now r = if not (text_eq r.method (codes "POST")) then err (expected_post r.method) else (do
    raw ← read_body max_body_bytes r
    in_request ← parse_json raw
    map_err invalid_event (validate (event_of now raw in_request))
    ok (event_of now raw in_request))

  unfoldable pub render : Response → Result ResponseError Page
  render resp = do
    validate_response resp
    ok (record { content_type = codes "application/json"; text = encode resp })

  abbrev pub simulator : Adapter
  simulator = record {
    name = name;
    verify = λ _. true;
    parse = parse;
    render = render;
    requires_allowlist = some false;
  }
