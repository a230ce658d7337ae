-- ===== src/Ussdsim/Posts.antt =====
-- cmd/ussdsim/main.go: the request in JSON that the handset posts, as the simulator adapter reads it.
use openussd.Prelude.{◌≡◌, refl, [], ◌∷◌, some, false}
use openussd.Strings.{Text, codes, text_eq}
use openussd.Maps
use openussd.Maps.{Map, HasDistinctKeys}
use openussd.Adapter.{HttpRequest}
use openussd.Adapter.Simulator.{SimRequest}
use openussd.Adapter.Simulator.Fields.{
  Value, text, texts, Json, IsJson, from_fields, text_field, texts_field, read_request,
}
use openussd.Ussdsim.{Request}

-- The tags of `request`.
unfoldable pub fields_of : Request → Map Value
fields_of req =
    (codes "session_id", text req.session_id)
    ∷ (codes "msisdn", text req.msisdn)
    ∷ (codes "shortcode", text req.shortcode)
    ∷ (codes "path", texts req.path)
    ∷ (codes "phase", text req.phase)
    ∷ []

-- The request that the client sends, from the address of the handset.
unfoldable pub posted : Json → Text → Request → HttpRequest
unfolding fields_of
posted json remote_addr req = record {
  method = codes "POST";
  headers = (codes "Content-Type", codes "application/json") ∷ [];
  forwarded_for = [];
  remote_addr = remote_addr;
  body = json.marshal (fields_of req);
  broken = false;
}

-- The request as the adapter has it.
abbrev pub read_back : Request → SimRequest
read_back req = record {
  session_id = req.session_id;
  msisdn = req.msisdn;
  shortcode = req.shortcode;
  path = req.path;
  phase = req.phase;
}

fields_of-HasDistinctKeys : (req : Request) → HasDistinctKeys (fields_of req)
unfolding fields_of Maps.lookup text_eq
fields_of-HasDistinctKeys req = (refl, (refl, (refl, (refl, (refl, tt)))))

from_fields-fields_of : (req : Request) → from_fields (fields_of req) ≡ some (read_back req)
unfolding from_fields fields_of text_field texts_field Maps.lookup text_eq
from_fields-fields_of req = refl

-- Both programs have the same tags for the same fields.
pub read_request-fields_of :
    (json : Json) (law : IsJson json) (req : Request)
    → read_request json (json.marshal (fields_of req)) ≡ some (read_back req)
unfolding read_request
read_request-fields_of json law req =
    rw (read_request, law (fields_of req) (fields_of-HasDistinctKeys req))
      (from_fields-fields_of req)
