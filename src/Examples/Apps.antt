-- ===== src/Examples/Apps.antt =====
-- An application of two screens, and its handler.
use openussd.Prelude.{ℕ, ◌≡◌, refl, if◌then◌else◌, false, Option, none, some, [], ◌∷◌, ok}
use openussd.Strings.{Text, codes, text_eq, is_empty}
use openussd.Maps.{Map}
use openussd.Canonical.Event.{continue_with}
use openussd.Webhook.Envelope.{Request, Reply}
use openussd.Webhook.Sign.{sign}
use openussd.Sdk.App.{Stored, Screen, App, Codec, finish, new_app, with_bundle, turn}
use openussd.Sdk.App.Turns.{IsAnswer}
use openussd.Sdk.App.Answers.{turn-IsAnswer}
use openussd.Sdk.Handler.{Inbound, serve}
use openussd.Sdk.Handler.Served.{IsServed, serve-ok}
use openussd.Examples.Data.{dialled, paired}

abbrev home : Screen (Unit {0})
home = record {
  name = codes "home";
  prompt = some (λ c. (c, ok (codes "Name?")));
  handle = some (λ c input. (c, ok (finish input)));
}

abbrev app : App (Unit {0})
app = record {
  screens = (codes "home", home) ∷ [];
  start = codes "home";
  bundle = none;
  default_lang = codes "en";
}

-- Only the screen is written, behind one rune; sessions in another language are not.
abbrev write : Stored (Unit {0}) → Option Text
write st = if text_eq st.lang (codes "en") then some (b'x' ∷ st.screen) else none

abbrev read : Text → Option (Stored (Unit {0}))
read [] = none
read (c ∷ screen) = some (record { screen = screen; lang = codes "en"; app = tt })

abbrev whole : Codec (Unit {0})
whole = record { decode = read; encode = write; zero = tt; lower = λ c. c }

app_built : new_app (codes "home") (home ∷ []) ≡ ok app
unfolding new_app openussd.Maps.lookup openussd.Maps.insert openussd.Strings.text_eq
app_built = refl

asked :
    turn whole (with_bundle none app) dialled 1 none
    ≡ ok (continue_with (codes "Name?"), some (codes "xhome"))
unfolding turn with_bundle openussd.Maps.lookup openussd.Strings.text_eq openussd.Sdk.Shrink.shrink
    openussd.Canonical.Encoding.fits_screen openussd.Canonical.Encoding.screen_cost
    openussd.Canonical.Encoding.is_basic
asked = refl

turn-IsAnswer_example :
    IsAnswer whole (with_bundle none app) (continue_with (codes "Name?"), some (codes "xhome"))
turn-IsAnswer_example =
    turn-IsAnswer Unit whole (codes "home") (home ∷ []) app none dialled 1 none
      (continue_with (codes "Name?"), some (codes "xhome")) app_built asked

abbrev moment : ℕ
moment = 62_135_596_801_000_000_000

abbrev request : Inbound
request = record {
  method = codes "POST";
  headers = sign paired [] (codes "key") moment (codes "{}");
  body = codes "{}";
  broken = false;
}

abbrev first_turn : Text → Option Request
first_turn _ = some (record { version = codes "1"; event = dialled; turn = 1; state = none })

abbrev asked_reply : Reply
asked_reply = record {
  response = continue_with (codes "Name?");
  state = some (codes "xhome");
  clear_state = false;
}

served : serve paired first_turn whole app (codes "key") moment request ≡ ok asked_reply
unfolding serve openussd.Sdk.Handler.read_up_to openussd.Sdk.Handler.decoded
    openussd.Sdk.Handler.answered openussd.Sdk.Handler.reply_for openussd.Webhook.Sign.verify
    openussd.Webhook.Sign.verify_at openussd.Webhook.Sign.sign openussd.Webhook.Sign.signature
    openussd.Webhook.Sign.signed_text openussd.Webhook.Sign.get_header openussd.Webhook.Sign.unix_of
    openussd.Webhook.Sign.out_of_window openussd.Webhook.Sign.effective_tolerance
    openussd.Strconv.format_int openussd.Strconv.print_nat openussd.Strconv.print_from
    openussd.Strconv.parse_int openussd.Strconv.parse_nat openussd.Strconv.parse_digits
    openussd.Strconv.checked_pos openussd.Strconv.checked_neg openussd.Maps.lookup
    openussd.Maps.insert openussd.Strings.text_eq openussd.Strings.has_prefix
    openussd.Webhook.Envelope.normalise_state openussd.Strings.trim_space turn
    openussd.Sdk.Shrink.shrink openussd.Canonical.Encoding.fits_screen
    openussd.Canonical.Encoding.screen_cost openussd.Canonical.Encoding.is_basic
served = refl

serve-ok_example : IsServed paired first_turn whole app (codes "key") moment request asked_reply
serve-ok_example =
    serve-ok Unit paired first_turn whole app (codes "key") moment request asked_reply served
