-- ===== src/Examples/Data.antt =====
-- Inputs of the examples: two tenants behind one shortcode, and a network, a client and a codec that
-- answer without leaving the process.
use openussd.Prelude.{true, false, Option, some, List, [], ◌∷◌, ◌++◌}
use openussd.Strings.{Text, codes}
use openussd.Canonical.Event.{Event, phase_begin, phase_continue, phase_cancel, continue_with}
use openussd.Webhook.Envelope.{Reply}
use openussd.Tenant.{Tenant}
use openussd.Tenant.Router.{Router}
use openussd.Tenant.Dispatch.{Outside}

abbrev pub menu_tenant : Tenant
menu_tenant = record {
  name = codes "menu";
  shortcode = codes "*384#";
  prefix = [];
  webhook_url = codes "https://m";
  secret = codes "key";
  timeout = 0;
}

abbrev pub bank_tenant : Tenant
bank_tenant = record {
  name = codes "bank";
  shortcode = codes "*384#";
  prefix = codes "2" ∷ [];
  webhook_url = codes "https://b";
  secret = codes "pin";
  timeout = 0;
}

abbrev pub two_tenants : List Tenant
two_tenants = menu_tenant ∷ bank_tenant ∷ []

abbrev pub https_only : Text → Option Text
https_only url = some (codes "https")

abbrev pub two_routes : Router
two_routes = record { by_shortcode = (codes "*384#", bank_tenant ∷ menu_tenant ∷ []) ∷ [] }

abbrev pub dialled : Event
dialled = record {
  mno = codes "at";
  session_id = codes "s1";
  msisdn = codes "+254";
  shortcode = codes "*384#";
  path = [];
  phase = phase_begin;
  network_code = [];
  received_at = 0;
  raw = [];
}

abbrev pub pressed_two : Event
pressed_two = record dialled { path = codes "2" ∷ codes "5" ∷ []; phase = phase_continue }

abbrev pub cancelled : Event
cancelled = record dialled { phase = phase_cancel }

abbrev pub welcome : Reply
welcome = record {
  response = continue_with (codes "Hi");
  state = some (codes "7");
  clear_state = true;
}

abbrev pub paired : Text → Text → Text
paired secret message = secret ++ message

-- The client's answer is decoded as the welcome with its state kept.
abbrev pub loopback : Outside
loopback = record {
  encode = λ r. some r.event.msisdn;
  decode = λ _. some (record welcome { clear_state = false });
  hmac_hex = paired;
  is_url = λ _. true;
  client = λ _. some (record { status = 200; bytes = codes "{}"; broken = false });
}
