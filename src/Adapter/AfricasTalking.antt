-- ===== src/Adapter/AfricasTalking.antt =====
-- gateway/internal/adapter/africastalking/adapter.go: form posts in, CON and END lines out.
pub mod Parses
use openussd.Prelude.{
  ℕ, ◌++◌, Bool, true, false, not, ◌||◌, Option, none, some, List, [], ◌∷◌, if◌then◌else◌, Result,
  ok, err, ◌>>=◌, ◌>>◌, map_err,
}
use mathlib.Core.Option
use openussd.Strings.{Text, codes, text_eq, is_empty, has_prefix, trim_space, split}
use openussd.Maps
use openussd.Maps.{Map}
use openussd.Canonical.Event.{
  Phase, phase_begin, phase_continue, Event, validate, Response, ResponseError, validate_response,
}
use openussd.Adapter.{
  HttpRequest, Page, Adapter, AdapterError, expected_post, malformed, invalid_event, max_body_bytes,
  read_body,
}

abbrev pub name : Text
name = codes "africastalking"

unfoldable pub phase_for : Text → Phase
phase_for text = if is_empty text then phase_begin else phase_continue

unfoldable pub split_path : Text → List Text
split_path text = if is_empty text then [] else split text b'*'

unfoldable pub normalise_msisdn : Text → Text
normalise_msisdn s =
    let t = trim_space s in if is_empty t || has_prefix t (codes "+") then t else codes "+" ++ t

-- `form.Get`: the first value of the field, or the empty text.
unfoldable pub form_get : Map Text → Text → Text
form_get form field = Option.get_or (Maps.lookup field form) []

-- The event that a form stands for.
unfoldable pub event_of : ℕ → Text → Map Text → Event
unfolding phase_for split_path normalise_msisdn form_get
event_of now raw form = record {
  mno = name;
  session_id = trim_space (form_get form (codes "sessionId"));
  msisdn = normalise_msisdn (form_get form (codes "phoneNumber"));
  shortcode = trim_space (form_get form (codes "serviceCode"));
  path = split_path (form_get form (codes "text"));
  phase = phase_for (form_get form (codes "text"));
  network_code = trim_space (form_get form (codes "networkCode"));
  received_at = now;
  raw = raw;
}

-- `url.ParseQuery` is the parameter.
module _ (parse_query : Text → Option (Map Text)) where
  unfoldable pub parse_form : Text → Result AdapterError (Map Text)
  parse_form raw = elim (parse_query raw) [ none ↦ err malformed | some form ↦ ok form ]

  unfoldable pub parse : ℕ → HttpRequest → Result AdapterError Event
  unfolding parse_form event_of
  parse now r = if not (text_eq r.method (codes "POST")) then err (expected_post r.method) else (do
    raw ← read_body max_body_bytes r
    form ← parse_form raw
    map_err invalid_event (validate (event_of now raw form))
    ok (event_of now raw form))

unfoldable pub render : Response → Result ResponseError Page
render resp = do
  validate_response resp
  ok (record {
    content_type = codes "text/plain; charset=utf-8";
    text = (if resp.end_session then codes "END" else codes "CON") ++ codes " " ++ resp.body;
  })

abbrev pub africastalking : (Text → Option (Map Text)) → Adapter
africastalking parse_query = record {
  name = name;
  verify = λ _. true;
  parse = parse parse_query;
  render = render;
  requires_allowlist = some true;
}
