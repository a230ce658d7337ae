-- ===== src/Httpx/Inbound/Steps.antt =====
-- The ways one turn can go, as a relation between what comes in and what it leaves and answers.
use openussd.Prelude.{
  ◌≡◌, refl, ◌⊎◌, inl, inr, true, false, Result, ok, err, Bool-cases, Result-cases, arith, if_true,
  if_false, sym, subst,
}
use openussd.Canonical.Event.{Event, terminal, Response, no_response}
use openussd.Session.{Key, Session, Store, StoreError}
use openussd.Tenant.{Tenant}
use openussd.Tenant.Router.Table.{ok-injective}
use openussd.Tenant.Router.{Router, NoRoute, route}
use openussd.Tenant.Dispatch.{DispatchError, Outside, deliver}
use openussd.Webhook.Envelope.{Reply}
use openussd.Httpx.Inbound.{
  Times, HandleError, saving, no_route, delivery, key_of, resumed, entered, payload_of, keep_state,
  after_save, finish, converse, handle,
}

after_save-store :
    {State : Type 0} (p : State × Result StoreError Unit) (resp : Response)
    → (after_save p resp).0 ≡ p.0
unfolding after_save
after_save-store (σ, ok a) resp = refl
after_save-store (σ, err e) resp = refl

-- The store that `finish` leaves is the one after `Delete` or the one after `Save`.
pub finish_store :
    (st : Store) (σ : st.State) (at : Times) (key : Key) (sess : Session) (reply : Reply)
    → ((finish st σ at key sess reply).0 ≡ (st.delete σ at.stored_at key).0)
      ⊎ ((finish st σ at key sess reply).0 ≡ (st.save σ at.stored_at (keep_state reply sess)).0)
unfolding finish
finish_store st σ at key sess reply = elim (Bool-cases reply.response.end_session) [
  | inl over ↦ inl (rw over)
  | inr more ↦ inr (rw more (after_save-store _ _))
]

pub after_save-ok :
    {State : Type 0} (p : State × Result StoreError Unit) (resp got : Response)
    → (after_save p resp).1 ≡ ok got
    → (p.1 ≡ ok tt) × (got ≡ resp) × ((after_save p resp).0 ≡ p.0)
unfolding after_save
after_save-ok (σ, ok a) resp got h = (refl, sym (ok-injective h), refl)
after_save-ok (σ, err e) resp got h = absurd (ground arith)

pub after_save-err :
    {State : Type 0} (p : State × Result StoreError Unit) (resp : Response) (e : HandleError)
    → (after_save p resp).1 ≡ err e
    → (se : StoreError) × (e ≡ saving se)
unfolding after_save
after_save-err (σ, ok a) resp e h = absurd (ground arith)
after_save-err (σ, err se) resp e h = (se, ground arith)

module _ (st : Store) (σ : st.State) (at : Times) (key : Key) (sess : Session) (reply : Reply) where
  pub finish_over :
      reply.response.end_session ≡ true
      → finish st σ at key sess reply ≡ ((st.delete σ at.stored_at key).0, ok reply.response)
  unfolding finish
  finish_over h = if_true _ _ h

  pub finish_on :
      reply.response.end_session ≡ false
      → finish st σ at key sess reply
        ≡ after_save (st.save σ at.stored_at (keep_state reply sess)) reply.response
  unfolding finish
  finish_on h = if_false _ _ h

module _ (st : Store) (env : Outside) (router : Router) (σ : st.State) (at : Times)
    (ev : Event) where
  abbrev pub loaded : Session
  loaded = resumed ev (st.load σ at.loaded_at (key_of ev))

  -- The session in which the tenant `t` serves the turn.
  abbrev pub session_for : Tenant → Session
  session_for t = entered loaded t.name

  pub data Turn : st.State × Result HandleError Response → Type 0 where
    ended :
        terminal ev.phase ≡ true → Turn ((st.delete σ at.stored_at (key_of ev)).0, ok no_response)
    unrouted :
        (e : NoRoute)
        → terminal ev.phase ≡ false
        → route router ev ≡ err e
        → Turn (σ, err (no_route e))
    undelivered :
        (t : Tenant) (routed : Event) (e : DispatchError)
        → terminal ev.phase ≡ false
        → route router ev ≡ ok (t, routed)
        → deliver env at.sent_at t (payload_of (session_for t) routed) ≡ err e
        → Turn (σ, err (delivery e))
    delivered :
        (t : Tenant) (routed : Event) (reply : Reply)
        → terminal ev.phase ≡ false
        → route router ev ≡ ok (t, routed)
        → deliver env at.sent_at t (payload_of (session_for t) routed) ≡ ok reply
        → Turn (finish st σ at (key_of ev) (session_for t) reply)

  converse_fails :
      (t : Tenant) (routed : Event) (sess : Session) (e : DispatchError)
      → deliver env at.sent_at t (payload_of (entered sess t.name) routed) ≡ err e
      → converse st env σ at (key_of ev) sess t routed ≡ (σ, err (delivery e))
  unfolding converse
  converse_fails t routed sess e h = rw (h, converse)

  converse_goes_on :
      (t : Tenant) (routed : Event) (sess : Session) (reply : Reply)
      → deliver env at.sent_at t (payload_of (entered sess t.name) routed) ≡ ok reply
      → converse st env σ at (key_of ev) sess t routed
        ≡ finish st σ at (key_of ev) (entered sess t.name) reply
  unfolding converse
  converse_goes_on t routed sess reply h = rw (h, converse)

  -- Every turn goes one of these ways.
  pub handle-Turn : Turn (handle st env router σ at ev)
  unfolding handle
  handle-Turn = elim (Bool-cases (terminal ev.phase)) [
    | inl over ↦ rw (over, handle) (ended over)
    | inr live ↦ elim (Result-cases (route router ev)) [
      | inr (e, nowhere) ↦ rw (live, nowhere, handle) (unrouted e live nowhere)
      | inl ((t, routed), there) ↦
          rw (live, there, handle)
            (elim (Result-cases (deliver env at.sent_at t (payload_of (session_for t) routed))) [
              | inr (e, failed) ↦
                  subst Turn (sym (converse_fails t routed loaded e failed))
                    (undelivered t routed e live there failed)
              | inl (reply, went) ↦
                  subst Turn (sym (converse_goes_on t routed loaded reply went))
                    (delivered t routed reply live there went)
            ])
    ]
  ]
