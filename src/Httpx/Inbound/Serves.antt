-- ===== src/Httpx/Inbound/Serves.antt =====
-- `ServeHTTP` of gateway/internal/httpx/inbound.go: what the network gets for a callback.
use openussd.Prelude.{
  ℕ, ◌≡◌, refl, sym, ◌∙◌, ap, subst, ◌⊎◌, inl, inr, true, Result, ok, arith, Bool-cases,
  Result-cases,
}
use openussd.Canonical.Encoding.{fits_screen, screen_cost, is_basic, is_extended}
use openussd.Canonical.Event.{Event, terminal, Response, no_response}
use openussd.Session.{Session, Store}
use openussd.Tenant.{Tenant}
use openussd.Tenant.Router.{Router}
use openussd.Tenant.Router.Table.{ok-injective}
use openussd.Tenant.Dispatch.{Outside, deliver}
use openussd.Tenant.Dispatch.Delivers.{deliver-IsDelivered}
use openussd.Webhook.Envelope.{Reply, Request}
use openussd.Adapter.{HttpRequest, Page, Adapter}
use openussd.Httpx.Inbound.{
  Times, HandleError, user_facing_error, key_of, keep_state, finish, handle, screen_for, empty_ok,
  page, serve_http,
}
use openussd.Httpx.Inbound.Steps.{
  after_save-ok, finish_over, finish_on, session_for, Turn, ended, unrouted, undelivered, delivered,
  handle-Turn,
}

user_facing_error-fits : fits_screen user_facing_error ≡ true
unfolding fits_screen screen_cost is_basic is_extended
user_facing_error-fits = refl

no_response-fits : fits_screen no_response.body ≡ true
unfolding fits_screen screen_cost
no_response-fits = refl

deliver-fits :
    (env : Outside) (now : ℕ) (t : Tenant) (payload : Request) (reply : Reply)
    → deliver env now t payload ≡ ok reply
    → fits_screen reply.response.body ≡ true
deliver-fits env now t payload reply h = (deliver-IsDelivered env now t payload reply h).fits

module _ (st : Store) (env : Outside) (router : Router) (σ : st.State) (at : Times)
    (ev : Event) where
  finish-response :
      (sess : Session) (reply : Reply) (resp : Response)
      → (finish st σ at (key_of ev) sess reply).1 ≡ ok resp
      → resp ≡ reply.response
  finish-response sess reply resp h = elim (Bool-cases reply.response.end_session) [
    | inl last ↦ sym (
        ok-injective (
          sym (
            ap (λ (p : st.State × Result HandleError Response). p.1)
              (finish_over st σ at (key_of ev) sess reply last))
          ∙ h))
    | inr on ↦
        let (_, shown, _) =
          after_save-ok (st.save σ at.stored_at (keep_state reply sess)) reply.response resp (
            sym (
              ap (λ (p : st.State × Result HandleError Response). p.1)
                (finish_on st σ at (key_of ev) sess reply on))
            ∙ h) in
        shown
  ]

  Turn-fits :
      (r : st.State × Result HandleError Response) (resp : Response)
      → r.1 ≡ ok resp
      → Turn st env router σ at ev r
      → fits_screen resp.body ≡ true
  Turn-fits r resp h (ended over) =
      subst (λ (q : Response). fits_screen q.body ≡ true) (ok-injective h) no_response-fits
  Turn-fits r resp h (unrouted e live nowhere) = absurd (ground arith)
  Turn-fits r resp h (undelivered t routed e live there failed) = absurd (ground arith)
  Turn-fits r resp h (delivered t routed reply live there went) =
      subst (λ (q : Response). fits_screen q.body ≡ true)
        (sym (finish-response (session_for st env router σ at ev t) reply resp h))
        (deliver-fits env at.sent_at t _ reply went)

  screen_for-fits : fits_screen (screen_for (handle st env router σ at ev).1).body ≡ true
  screen_for-fits = elim (Result-cases (handle st env router σ at ev).1) [
    | inl (resp, h) ↦
        subst (λ (r : Result HandleError Response). fits_screen (screen_for r).body ≡ true) (sym h)
          (Turn-fits _ resp h (handle-Turn st env router σ at ev))
    | inr (e, h) ↦
        subst (λ (r : Result HandleError Response). fits_screen (screen_for r).body ≡ true) (sym h)
          user_facing_error-fits
  ]

-- The adapter renders every screen that fits.
abbrev pub IsRenderer : Adapter → Type 0
IsRenderer a =
    (resp : Response) → fits_screen resp.body ≡ true → (p : Page) × (a.render resp ≡ ok p)

-- Every authentic event gets an answer: an empty one if the network has ended the dialogue, and
-- otherwise a page of a screen that fits, whatever fails behind the gateway. The adapter renders every
-- screen that fits.
pub serve_http_answers :
    (st : Store) (env : Outside) (router : Router) (a : Adapter) (σ : st.State) (at : Times)
    (r : HttpRequest) (ev : Event)
    → IsRenderer a
    → a.verify r ≡ true
    → a.parse at.loaded_at r ≡ ok ev
    → ((terminal ev.phase ≡ true) × ((serve_http st env router a σ at r).1 ≡ empty_ok))
      ⊎ ((resp : Response) × (p : Page) × (fits_screen resp.body ≡ true)
          × (a.render resp ≡ ok p)
          × ((serve_http st env router a σ at r).1 ≡ page p))
unfolding serve_http
serve_http_answers st env router a σ at r ev renders good parsed =
    elim (Bool-cases (terminal ev.phase)) [
      | inl over ↦ inl (over, rw (good, parsed, over, serve_http))
      | inr live ↦
          let resp = screen_for (handle st env router σ at ev).1 in
          let fits = screen_for-fits st env router σ at ev in
          let (p, drawn) = renders resp fits in
          inr (resp, p, fits, drawn, rw (good, parsed, live, drawn, serve_http))
    ]
