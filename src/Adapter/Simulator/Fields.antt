-- ===== src/Adapter/Simulator/Fields.antt =====
-- The JSON object of gateway/internal/adapter/simulator/adapter.go: the tags of `request`.
use openussd.Prelude.{Option, none, some, List, [], ◌≡◌}
use openussd.Strings.{Text, codes}
use openussd.Maps
use openussd.Maps.{Map, HasDistinctKeys}
use openussd.Adapter.Simulator.{SimRequest}

-- The values of the fields: a string or a list of strings.
pub data Value : Type 0 where
  text : Text → Value
  texts : List Text → Value

-- encoding/json: an object in a body, and the object that a body is read as, if it is one.
pub record Json : Type 0 where
  pub marshal : Map Value → Text
  pub unmarshal : Text → Option (Map Value)

-- An object whose keys differ is read back as it was written.
abbrev pub IsJson : Json → Type 0
IsJson json =
    (object : Map Value)
    → HasDistinctKeys object
    → json.unmarshal (json.marshal object) ≡ some object

-- A field that is absent is empty, and one of another type is an error. Names are matched as they are
-- written.
unfoldable pub text_field : Text → Map Value → Option Text
text_field key object = elim (Maps.lookup key object) [
  | none ↦ some []
  | some v ↦ elim v [ text s ↦ some s | texts l ↦ none ]
]

unfoldable pub texts_field : Text → Map Value → Option (List Text)
texts_field key object = elim (Maps.lookup key object) [
  | none ↦ some []
  | some v ↦ elim v [ text s ↦ none | texts l ↦ some l ]
]

abbrev filled :
    Option Text → Option Text → Option Text → Option (List Text) → Option Text → Option SimRequest
filled (some session_id) (some msisdn) (some shortcode) (some path) (some phase) = some (record {
  session_id = session_id;
  msisdn = msisdn;
  shortcode = shortcode;
  path = path;
  phase = phase;
})
filled _ _ _ _ _ = none

unfoldable pub from_fields : Map Value → Option SimRequest
unfolding text_field texts_field
from_fields object =
    filled (text_field (codes "session_id") object) (text_field (codes "msisdn") object)
      (text_field (codes "shortcode") object) (texts_field (codes "path") object)
      (text_field (codes "phase") object)

-- `json.Unmarshal(raw, &in)`
unfoldable pub read_request : Json → Text → Option SimRequest
unfolding from_fields
read_request json raw = elim (json.unmarshal raw) [ none ↦ none | some object ↦ from_fields object ]
