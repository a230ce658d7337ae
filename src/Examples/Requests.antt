-- ===== src/Examples/Requests.antt =====
-- Signatures, deliveries and callbacks at concrete requests.
use openussd.Prelude.{ℕ, ◌≡◌, refl, ◌↔◌, false, Option, none, some, [], ◌∷◌, ok, ℤ, arith}
use openussd.Strings.{Text, codes, join, split, trim_space}
use openussd.Maps.{Map}
use openussd.Canonical.Encoding.{fits_screen, screen_cost, is_basic}
use openussd.Canonical.Event.{Event, validate, Response, continue_with}
use openussd.Webhook.Envelope.{Request, Reply}
use openussd.Webhook.Sign.{sign, verify, signed_text, get_header, header_timestamp}
use openussd.Webhook.Sign.Accepts.{IsSigned, verify_iff, verify-sign}
use openussd.Tenant.Dispatch.{deliver}
use openussd.Tenant.Dispatch.Delivers.{IsDelivered, deliver-IsDelivered}
use openussd.Adapter.{HttpRequest, Page}
use openussd.Adapter.AfricasTalking
use openussd.Adapter.AfricasTalking.Parses.{IsParsed, parse-IsParsed}
use openussd.Adapter.TrustedProxy
use openussd.Adapter.TrustedProxy.{Network, TrustedProxy, client_addr, last_hop}
use openussd.Adapter.TrustedProxy.Trusts.{client_addr_forged}
use openussd.Examples.Data.{menu_tenant, dialled, welcome, paired, loopback}

-- The first second of 1970.
abbrev moment : ℕ
moment = 62_135_596_801_000_000_000

abbrev signed : Map Text
signed = sign paired [] (codes "key") moment (codes "{}")

verify-sign_example : verify paired signed (codes "key") (codes "{}") moment 0 ≡ ok tt
unfolding openussd.Webhook.Sign.effective_tolerance
verify-sign_example =
    verify-sign paired [] (codes "key") (codes "{}") moment moment 0 refl (omega arith)
      (omega arith) (omega arith)

verify_iff_example :
    (verify paired signed (codes "key") (codes "{}") moment 0 ≡ ok tt)
    ↔ ((unix : ℤ) × IsSigned paired signed (codes "key") (codes "{}") moment 0 unix)
verify_iff_example = verify_iff paired signed (codes "key") (codes "{}") moment 0

abbrev first_turn : Request
first_turn = record { version = []; event = dialled; turn = 1; state = none }

abbrev shown : Reply
shown = record welcome { clear_state = false }

delivered : deliver loopback moment menu_tenant first_turn ≡ ok shown
unfolding deliver openussd.Canonical.Event.validate_response fits_screen screen_cost is_basic
    openussd.Webhook.Envelope.normalise_state openussd.Strings.text_eq trim_space
delivered = refl

deliver-IsDelivered_example : IsDelivered loopback moment menu_tenant first_turn shown
deliver-IsDelivered_example =
    deliver-IsDelivered loopback moment menu_tenant first_turn shown delivered

abbrev pub posted : HttpRequest
posted = record {
  method = codes "POST";
  headers = [];
  forwarded_for = codes "5" ∷ [];
  remote_addr = codes "9";
  body = codes "x";
  broken = false;
}

-- A form that is the same for every body.
abbrev pub one_form : Text → Option (Map Text)
one_form _ = some (
    (codes "sessionId", codes "s1")
    ∷ (codes "phoneNumber", codes "254")
    ∷ (codes "serviceCode", codes "*384#")
    ∷ (codes "text", codes "2*5")
    ∷ [])

abbrev pub parsed_event : Event
parsed_event = AfricasTalking.event_of 7 (codes "x") (
    (codes "sessionId", codes "s1")
    ∷ (codes "phoneNumber", codes "254")
    ∷ (codes "serviceCode", codes "*384#")
    ∷ (codes "text", codes "2*5")
    ∷ [])

pub posted_parses : AfricasTalking.parse one_form 7 posted ≡ ok parsed_event
unfolding AfricasTalking.parse openussd.Strings.text_eq openussd.Adapter.read_body validate
    trim_space openussd.Maps.lookup openussd.Strings.byte_len openussd.Strings.has_prefix
    openussd.Canonical.Event.valid split openussd.Strings.contains_rune
posted_parses = refl

parse-IsParsed_example : IsParsed one_form 7 posted parsed_event
parse-IsParsed_example = parse-IsParsed one_form 7 posted parsed_event posted_parses

-- Addresses are texts and prefixes too; a prefix contains itself.
abbrev pub plain : Network Text Text
plain = record {
  host_of = λ _. none;
  parse_addr = λ s. some s;
  unmap = λ a. a;
  contains = λ p a. openussd.Strings.text_eq p a;
}

abbrev proxy : TrustedProxy Text
proxy = record {
  adapter = AfricasTalking.africastalking one_form;
  allowed = codes "5" ∷ [];
  forwarders = codes "9" ∷ [];
}

hop_found : last_hop plain proxy.forwarders (split (codes "5") b',') ≡ some (codes "5")
unfolding last_hop split TrustedProxy.contains_addr openussd.Strings.text_eq trim_space
hop_found = refl

client_addr_forged_example :
    client_addr plain proxy (record posted { forwarded_for = codes "1,5" ∷ [] })
    ≡ client_addr plain proxy posted
client_addr_forged_example =
    client_addr_forged Text Text plain proxy posted (codes "5") (codes "1") (codes "5") refl
      hop_found
