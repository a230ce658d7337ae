-- ===== src/Httpx/Inbound.antt =====
-- gateway/internal/httpx/inbound.go: one MNO's callback endpoint. Logging is left out.
pub mod Steps
pub mod Ownership
pub mod Histories
pub mod Shared
pub mod Resumes
pub mod Others
pub mod Turns
pub mod Failures
pub mod Serves
pub mod Ids
use openussd.Prelude.{
  ℕ, suc, ◌+◌, ◌-◌, Bool, true, false, not, ◌&&◌, ◌||◌, Option, none, some, List, [], ◌∷◌, ltb,
  if◌then◌else◌, Result, ok, err,
}
use openussd.Strings.{Text, codes, text_eq, is_empty, cut_bytes}
use openussd.Canonical.Event.{Event, terminal, Response, ResponseError, no_response, end_with}
use openussd.Session.{Key, Session, Store, StoreError}
use openussd.Tenant.{Tenant}
use openussd.Tenant.Router.{Router, NoRoute, route}
use openussd.Tenant.Dispatch.{DispatchError, Outside, deliver}
use openussd.Webhook.Envelope.{version, Request, Reply}
use openussd.Adapter.{HttpRequest, Page, Adapter}

abbrev pub user_facing_error : Text
user_facing_error = codes "Service unavailable. Please try again later."

-- The zero time stands for a session that has not been saved.
unfoldable pub new_session : Key → Event → Session
new_session key ev = record {
  key = key;
  tenant = [];
  msisdn = ev.msisdn;
  shortcode = ev.shortcode;
  turn = 0;
  state = none;
  created_at = 0;
  updated_at = 0;
}

abbrev pub key_of : Event → Key
key_of ev = record { mno = ev.mno; session_id = ev.session_id }

-- The switch on what `Load` answered.
unfoldable pub resumed : Event → Result StoreError Session → Session
unfolding new_session
resumed ev (err e) = new_session (key_of ev) ev
resumed ev (ok sess) =
    if not (text_eq sess.msisdn ev.msisdn) then new_session (key_of ev) ev else sess

-- The handover to the tenant that was routed to, and the turn that is counted.
unfoldable pub entered : Session → Text → Session
entered sess name =
    let kept =
      if not (is_empty sess.tenant) && not (text_eq sess.tenant name)
      then record sess { state = none; turn = 0 }
      else sess in
    record kept { tenant = name; turn = kept.turn + 1 }

abbrev pub new_state : Reply → Option Text → Option Text
new_state reply old =
    if reply.clear_state then none else elim reply.state [ none ↦ old | some s ↦ some s ]

unfoldable pub keep_state : Reply → Session → Session
keep_state reply sess = record sess { state = new_state reply sess.state }

abbrev pub payload_of : Session → Event → Request
payload_of sess routed = record {
  version = [];
  event = routed;
  turn = sess.turn;
  state = sess.state;
}

pub data HandleError : Type 0 where
  no_route : NoRoute → HandleError
  delivery : DispatchError → HandleError
  saving : StoreError → HandleError

-- When the steps of one turn take place.
pub record Times : Type 0 where
  pub loaded_at : ℕ
  pub sent_at : ℕ
  pub stored_at : ℕ

-- What one request writes: `http.Error`, an empty 200, a page, or nothing if `Render` fails.
pub data Served : Type 0 where
  forbidden bad_request empty_ok unrendered : Served
  page : Page → Served

-- `if err := Save(…); err != nil { return Response{}, err }; return reply.Response, nil`
unfoldable pub after_save {ℓ} :
    {State : Type ℓ}
    → State × Result StoreError Unit
    → Response
    → State × Result HandleError Response
after_save (σ, ok _) resp = (σ, ok resp)
after_save (σ, err e) resp = (σ, err (saving e))

-- The screen for a result, and what is written for it.
abbrev pub screen_for : Result HandleError Response → Response
screen_for (ok resp) = resp
screen_for (err e) = end_with user_facing_error

abbrev pub written : Result ResponseError Page → Served
written (ok p) = page p
written (err e) = unrendered

module _ (st : Store) where
  -- The end of the turn: the store is written, or the finished session deleted.
  unfoldable pub finish :
      st.State → Times → Key → Session → Reply → st.State × Result HandleError Response
  unfolding keep_state after_save
  finish σ at key sess reply =
      if reply.response.end_session
      then ((st.delete σ at.stored_at key).0, ok reply.response)
      else after_save (st.save σ at.stored_at (keep_state reply sess)) reply.response

module _ (st : Store) (env : Outside) where
  -- The turn of a session with the tenant that was routed to.
  unfoldable pub converse :
      st.State → Times → Key → Session → Tenant → Event → st.State × Result HandleError Response
  unfolding entered finish
  converse σ at key sess target routed =
      let sess' = entered sess target.name in
      elim (deliver env at.sent_at target (payload_of sess' routed)) [
        | err e ↦ (σ, err (delivery e))
        | ok reply ↦ finish st σ at key sess' reply
      ]

module _ (st : Store) (env : Outside) (router : Router) where
  unfoldable pub handle : st.State → Times → Event → st.State × Result HandleError Response
  unfolding resumed converse
  handle σ at ev =
      let sess = resumed ev (st.load σ at.loaded_at (key_of ev)) in
      elim (terminal ev.phase) [
        | true ↦ ((st.delete σ at.stored_at (key_of ev)).0, ok no_response)
        | false ↦ elim (route router ev) [
          | err e ↦ (σ, err (no_route e))
          | ok (target, routed) ↦ converse st env σ at (key_of ev) sess target routed
        ]
      ]

  unfoldable pub serve_http : Adapter → st.State → Times → HttpRequest → st.State × Served
  unfolding handle
  serve_http a σ at r = if not (a.verify r) then (σ, forbidden) else elim (a.parse at.loaded_at r) [
    | err e ↦ (σ, bad_request)
    | ok ev ↦
        let (σ', result) = handle σ at ev in
        (σ', if terminal ev.phase then empty_ok else written (a.render (screen_for result)))
  ]

-- Request ids.
abbrev pub max_request_id_len : ℕ
max_request_id_len = 64

pub printable : Text → Text
printable [] = []
printable (c ∷ s) = let rest = printable s in if ltb c 0x20 || ltb 0x7e c then rest else c ∷ rest

unfoldable pub sanitise_id : Text → Text
unfolding cut_bytes printable
sanitise_id s = printable (cut_bytes max_request_id_len s)

-- `requestID`: the header's value and the id that is drawn otherwise.
unfoldable pub request_id : Text → Text → Text
unfolding sanitise_id
request_id given drawn =
    if is_empty given
    then drawn
    else if is_empty (sanitise_id given)
    then drawn
    else sanitise_id given
