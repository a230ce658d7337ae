-- ===== src/Adapter/AfricasTalking/Parses.antt =====
-- africastalking/adapter.go: the events that are parsed and the pages that are rendered.
use openussd.Prelude.{
  ℕ, ◌≡◌, ◌≢◌, refl, sym, ◌∙◌, ap, subst, ◌⊎◌, inl, inr, ◌↔◌, Bool, true, false, not, Option, some,
  [], ◌∷◌, ◌++◌, ◌+◌, ◌≤◌, ◌&&◌, ltb, leb, length, take, take_all, length-take, not-eq-false,
  if◌then◌else◌, ok, map_err, >>=-eq-ok, if_err-eq-ok, map_err-eq-ok, arith, Bool-cases,
}
use mathlib.Core.Option
use openussd.Strings.{Text, codes, is_empty, has_prefix, join, split, trim_space, text_eq}
use openussd.Strings.Split.{join-split}
use openussd.Strings.Equal.{is_empty_sound, text_eq_iff}
use openussd.Maps
use openussd.Maps.{Map}
use openussd.Canonical.Encoding.{fits_screen}
use openussd.Canonical.Event.{
  phase_begin, phase_continue, Event, validate, Response, validate_response,
}
use openussd.Canonical.Event.Valid.{IsValid, validate_iff, validate_response_iff}
use openussd.Tenant.Router.Table.{ok-injective}
use openussd.Adapter.{HttpRequest, Page, invalid_event, max_body_bytes, read_body}
use openussd.Adapter.AfricasTalking.{
  phase_for, split_path, normalise_msisdn, form_get, event_of, parse_form, parse, render,
}

-- The first request of a dialogue has no input and begins it; the others continue it.
abbrev pub IsTurnOf : Text → Event → Type 0
IsTurnOf text ev =
    ((text ≡ []) × (ev.path ≡ []) × (ev.phase ≡ phase_begin))
    ⊎ ((text ≢ []) × (ev.path ≡ split text b'*') × (ev.phase ≡ phase_continue))

-- The value of a field of the form; a field that is not there is empty.
abbrev pub field : Map Text → Text → Text
field form key = Option.get_or (Maps.lookup key form) []

-- A number as it is written: with its plus, or without and a plus is put in front.
abbrev pub IsNumberOf : Text → Text → Type 0
IsNumberOf phone msisdn =
    ((has_prefix phone (codes "+") ≡ true) × (msisdn ≡ phone))
    ⊎ ((has_prefix phone (codes "+") ≡ false) × (msisdn ≡ codes "+" ++ phone))

pub record IsParsed (parse_query : Text → Option (Map Text)) (now : ℕ) (r : HttpRequest)
    (ev : Event) : Type 0 where
  pub posts : r.method ≡ codes "POST"
  pub bounded : length r.body ≤ max_body_bytes
  pub body : ev.raw ≡ r.body
  pub form : Map Text
  pub parsed : parse_query r.body ≡ some form
  pub valid : IsValid ev
  pub mno : ev.mno ≡ codes "africastalking"
  pub session_id : ev.session_id ≡ trim_space (field form (codes "sessionId"))
  pub number : IsNumberOf (trim_space (field form (codes "phoneNumber"))) ev.msisdn
  pub shortcode : ev.shortcode ≡ trim_space (field form (codes "serviceCode"))
  pub network_code : ev.network_code ≡ trim_space (field form (codes "networkCode"))
  pub turn : IsTurnOf (field form (codes "text")) ev
  pub typed : join ev.path (codes "*") ≡ field form (codes "text")
  pub received : ev.received_at ≡ now

form_get-field : (form : Map Text) (key : Text) → form_get form key ≡ field form key
unfolding form_get
form_get-field form key = refl

normalise_msisdn-IsNumberOf :
    (s : Text) → normalise_msisdn s ≢ [] → IsNumberOf (trim_space s) (normalise_msisdn s)
unfolding normalise_msisdn
normalise_msisdn-IsNumberOf s full = elim (Bool-cases (has_prefix (trim_space s) (codes "+"))) [
  | inl plus ↦ inl (plus, ground arith)
  | inr bare ↦ elim (Bool-cases (is_empty (trim_space s))) [
    | inl nothing ↦ absurd (full (rw nothing (is_empty_sound (trim_space s) nothing)))
    | inr some_text ↦ inr (bare, rw (bare, some_text) refl)
  ]
]

-- A body that is read is the whole body, and it is not too large.
pub read_body-eq-ok :
    (max : ℕ) (r : HttpRequest) (raw : Text)
    → read_body max r ≡ ok raw
    → (length r.body ≤ max) × (raw ≡ r.body)
unfolding read_body
read_body-eq-ok max r raw h =
    let (whole, h1) = if_err-eq-ok (r.broken && leb (length r.body) max) _ _ h in
    let (small, h2) =
      if_err-eq-ok (ltb max (length (take (max + 1) r.body))) _ (ok (take (max + 1) r.body)) h1 in
    let bound : length r.body ≤ max = ground (arith, length-take (max + 1) r.body, small) in
    (bound, sym (ok-injective h2) ∙ take_all (max + 1) r.body (omega (arith, bound)))

split_path-IsTurnOf :
    (text : Text)
    → ((text ≡ []) × (split_path text ≡ []) × (phase_for text ≡ phase_begin))
      ⊎ ((text ≢ []) × (split_path text ≡ split text b'*') × (phase_for text ≡ phase_continue))
unfolding split_path phase_for
split_path-IsTurnOf [] = inl (refl, refl, refl)
split_path-IsTurnOf (c ∷ text) = inr ((λ e. ground arith), refl, refl)

join-split_path : (text : Text) → join (split_path text) (codes "*") ≡ text
unfolding split_path
join-split_path [] = unfold join in refl
join-split_path (c ∷ text) = join-split (c ∷ text) b'*'

module _ (parse_query : Text → Option (Map Text)) where
  parse_form-eq-ok :
      (raw : Text) (form : Map Text)
      → parse_form parse_query raw ≡ ok form
      → parse_query raw ≡ some form
  unfolding parse_form
  parse_form-eq-ok raw form h = ground arith

  event_of-IsParsed :
      (now : ℕ) (r : HttpRequest) (form : Map Text)
      → r.method ≡ codes "POST"
      → length r.body ≤ max_body_bytes
      → parse_query r.body ≡ some form
      → IsValid (event_of now r.body form)
      → IsParsed parse_query now r (event_of now r.body form)
  unfolding event_of
  event_of-IsParsed now r form posts bounded parsed valid =
      let text = form_get-field form (codes "text") in
      record {
        posts = posts;
        bounded = bounded;
        body = refl;
        form = form;
        parsed = parsed;
        valid = valid;
        mno = refl;
        session_id = ap trim_space (form_get-field form (codes "sessionId"));
        number =
            subst (λ s. IsNumberOf (trim_space s) (event_of now r.body form).msisdn)
              (form_get-field form (codes "phoneNumber"))
              (normalise_msisdn-IsNumberOf (form_get form (codes "phoneNumber")) valid.msisdn);
        shortcode = ap trim_space (form_get-field form (codes "serviceCode"));
        network_code = ap trim_space (form_get-field form (codes "networkCode"));
        turn =
            subst (λ s. IsTurnOf s (event_of now r.body form)) text
              (split_path-IsTurnOf (form_get form (codes "text")));
        typed = join-split_path (form_get form (codes "text")) ∙ text;
        received = refl;
      }

-- An event that `Parse` returns is valid and stands for the form in the whole body of a POST, which
-- has at most 65536 bytes: the session, the short code and the network are the trimmed fields of
-- those names, the number is the trimmed phone number with a plus in front, put there if it had
-- none, and the path is the typed text split at the stars, which joins to it again and begins the
-- dialogue exactly if nothing was typed.
pub parse-IsParsed :
    (parse_query : Text → Option (Map Text)) (now : ℕ) (r : HttpRequest) (ev : Event)
    → parse parse_query now r ≡ ok ev
    → IsParsed parse_query now r ev
unfolding parse
parse-IsParsed parse_query now r ev h =
    let (posts, h1) = if_err-eq-ok (not (text_eq r.method (codes "POST"))) _ _ h in
    let (raw, read, h2) = >>=-eq-ok (read_body max_body_bytes r) _ h1 in
    let (form, decoded, h3) = >>=-eq-ok (parse_form parse_query raw) _ h2 in
    let (_, valid, h4) =
      >>=-eq-ok (map_err invalid_event (validate (event_of now raw form))) _ h3 in
    let (bounded, same) = read_body-eq-ok max_body_bytes r raw read in
    subst (IsParsed parse_query now r) (ap (λ b. event_of now b form) (sym same) ∙ ok-injective h4)
      (event_of-IsParsed parse_query now r form
        ((text_eq_iff r.method (codes "POST")).0 (not-eq-false _ posts)) bounded
        (ap parse_query (sym same) ∙ parse_form-eq-ok parse_query raw form decoded)
        ((validate_iff (event_of now r.body form)).0 (
          subst (λ b. validate (event_of now b form) ≡ ok tt) same
            (map_err-eq-ok invalid_event _ valid))))

abbrev drawn : Response → Page
drawn resp = record {
  content_type = codes "text/plain; charset=utf-8";
  text = (if resp.end_session then codes "END" else codes "CON") ++ codes " " ++ resp.body;
}

-- What the network reads: the verb and the screen.
abbrev pub line_of : Response → Page
line_of resp = record {
  content_type = codes "text/plain; charset=utf-8";
  text = (if resp.end_session then codes "END " else codes "CON ") ++ resp.body;
}

verb_text :
    (b : Bool) (body : Text)
    → (if b then codes "END" else codes "CON") ++ codes " " ++ body
      ≡ (if b then codes "END " else codes "CON ") ++ body
verb_text true body = refl
verb_text false body = refl

drawn_lem : (resp : Response) → drawn resp ≡ line_of resp
drawn_lem resp =
    ap (λ t. record { content_type = codes "text/plain; charset=utf-8"; text = t })
      (verb_text resp.end_session resp.body)

render_drawn : (resp : Response) → validate_response resp ≡ ok tt → render resp ≡ ok (drawn resp)
unfolding render
render_drawn resp h = rw h

drawn_render :
    (resp : Response) (p : Page)
    → render resp ≡ ok p
    → (validate_response resp ≡ ok tt) × (drawn resp ≡ p)
unfolding render
drawn_render resp p h =
    let (_, fits, e) = >>=-eq-ok (validate_response resp) _ h in (fits, ok-injective e)

-- A response is rendered exactly if its screen fits, as a line whose verb tells whether it ends the
-- session and whose rest is the screen.
pub render_iff :
    (resp : Response) (p : Page)
    → (render resp ≡ ok p) ↔ ((fits_screen resp.body ≡ true) × (p ≡ line_of resp))
render_iff resp p = (
  λ h.
      let (valid, e) = drawn_render resp p h in
      ((validate_response_iff resp).0 valid, sym e ∙ drawn_lem resp),
  λ (fits, e).
      render_drawn resp ((validate_response_iff resp).1 fits) ∙ ap ok (drawn_lem resp ∙ sym e),
)
