-- ===== src/Httpx/Inbound/Turns.antt =====
-- `handle` of gateway/internal/httpx/inbound.go: what a turn leaves in the store.
use openussd.Prelude.{
  ℕ, ◌+◌, ◌<◌, ◌≡◌, refl, sym, ◌∙◌, ap, subst, ◌⊎◌, inl, inr, true, false, Option, [], Result, ok,
  err, arith, Bool-cases,
}
use openussd.Strings.{Text}
use openussd.Canonical.Event.{Event, terminal, Response}
use openussd.Session.{validate_key, Session, not_found, Store, IsStore, stamp}
use openussd.Tenant.{Tenant}
use openussd.Tenant.Router.{Router, route}
use openussd.Tenant.Router.Table.{ok-injective}
use openussd.Tenant.Dispatch.{Outside, deliver}
use openussd.Webhook.Envelope.{Reply}
use openussd.Httpx.Inbound.{Times, HandleError, key_of, entered, keep_state, handle}
use openussd.Httpx.Inbound.Others.{stored_key}
use openussd.Httpx.Inbound.Resumes.{
  Resumes, IsNextState, new_state-IsNextState, entered-Resumes, entered-msisdn,
}
use openussd.Httpx.Inbound.Steps.{
  after_save-ok, finish_over, finish_on, session_for, Turn, ended, unrouted, undelivered, delivered,
  handle-Turn,
}

module _ (st : Store) (law : IsStore st) (env : Outside) (router : Router) (σ : st.State)
    (at : Times) (ev : Event)
    (own_key : (s : Session) → st.load σ at.loaded_at (key_of ev) ≡ ok s → s.key ≡ key_of ev) where
  -- The session that is left for the next turn.
  pub record IsKept (name : Text) (turn : ℕ) (state : Option Text) (reply : Reply) (kept : Session)
      : Type 0 where
    pub key : kept.key ≡ key_of ev
    pub tenant : kept.tenant ≡ name
    pub msisdn : kept.msisdn ≡ ev.msisdn
    pub counted : kept.turn ≡ turn
    pub next : IsNextState reply state kept.state
    pub written : kept.updated_at ≡ at.stored_at

  -- What the tenant is asked and what the next turn of the dialogue finds.
  pub record IsContinued (after : st.State) (resp : Response) : Type 0 where
    pub tenant : Tenant
    pub routed : Event
    pub turn : ℕ
    pub state : Option Text
    pub reply : Reply
    pub kept : Session
    pub routes : route router ev ≡ ok (tenant, routed)
    pub resumes : Resumes ev (st.load σ at.loaded_at (key_of ev)) tenant.name turn state
    pub replied :
        deliver env at.sent_at tenant
          (record { version = []; event = routed; turn = turn; state = state })
        ≡ ok reply
    pub shown : resp ≡ reply.response
    pub keeps : IsKept tenant.name turn state reply kept
    pub stored :
        (later : ℕ) → later < at.stored_at + law.ttl σ → st.load after later (key_of ev) ≡ ok kept

  abbrev kept_session : Tenant → Reply → Session
  kept_session t reply = stamp at.stored_at (keep_state reply (session_for st env router σ at ev t))

  kept_session-IsKept :
      (t : Tenant) (reply : Reply)
      → IsKept t.name
          (session_for st env router σ at ev t).turn
          (session_for st env router σ at ev t).state
          reply
          (kept_session t reply)
  unfolding stamp keep_state entered
  kept_session-IsKept t reply = record {
    key = stored_key st law env router σ at ev own_key t reply;
    tenant = refl;
    msisdn = entered-msisdn ev (st.load σ at.loaded_at (key_of ev)) t.name;
    counted = refl;
    next = new_state-IsNextState reply (session_for st env router σ at ev t).state;
    written = refl;
  }

  Turn-IsContinued :
      (r : st.State × Result HandleError Response) (resp : Response)
      → terminal ev.phase ≡ false
      → r.1 ≡ ok resp
      → resp.end_session ≡ false
      → Turn st env router σ at ev r
      → IsContinued r.0 resp
  Turn-IsContinued r resp live h more (ended over) = absurd (ground (arith, live, over))
  Turn-IsContinued r resp live h more (unrouted e _ nowhere) = absurd (ground arith)
  Turn-IsContinued r resp live h more (undelivered t routed e _ there failed) =
      absurd (ground arith)
  Turn-IsContinued r resp live h more (delivered t routed reply _ there went) =
      let sess = session_for st env router σ at ev t in
      elim (Bool-cases reply.response.end_session) [
        | inl over ↦
            let same : reply.response ≡ resp = ok-injective (
              sym (
                ap (λ (p : st.State × Result HandleError Response). p.1)
                  (finish_over st σ at (key_of ev) sess reply over))
              ∙ h) in
            absurd (ground (arith, over, more, ap (λ (q : Response). q.end_session) same))
        | inr on ↦
            let go = finish_on st σ at (key_of ev) sess reply on in
            let (fine, shown, after) =
              after_save-ok (st.save σ at.stored_at (keep_state reply sess)) reply.response resp
                (sym (ap (λ (p : st.State × Result HandleError Response). p.1) go) ∙ h) in
            record {
              tenant = t;
              routed = routed;
              turn = sess.turn;
              state = sess.state;
              reply = reply;
              kept = kept_session t reply;
              routes = there;
              resumes = entered-Resumes ev (st.load σ at.loaded_at (key_of ev)) t.name;
              replied = went;
              shown = shown;
              keeps = kept_session-IsKept t reply;
              stored = λ later soon.
                  ap (λ (τ : st.State). st.load τ later (key_of ev))
                    (ap (λ (p : st.State × Result HandleError Response). p.0) go ∙ after)
                  ∙ subst
                      (λ k.
                        st.load (st.save σ at.stored_at (keep_state reply sess)).0 later k
                        ≡ ok (stamp at.stored_at (keep_state reply sess)))
                      (stored_key st law env router σ at ev own_key t reply)
                      (law.load-save σ at.stored_at later (keep_state reply sess) fine soon);
            }
      ]

-- A turn that answers with a screen that keeps the session was served by the tenant that the router
-- names. The tenant was asked with the turn after that of the session that was found and with its
-- state, or with turn 1 and no state if none was found, if it was another number's, or if another
-- tenant had it. Until the store's lifetime has passed the dialogue is found under the event's number
-- with that tenant and that turn, and with the reply's state, with none if the reply clears it, and
-- with the state that was sent if the reply has none. The store keeps its contract, the event is not
-- terminal, and a session found under the key carries it.
pub handle-IsContinued :
    (st : Store) (law : IsStore st) (env : Outside) (router : Router) (σ : st.State) (at : Times)
    (ev : Event)
    (own_key : (s : Session) → st.load σ at.loaded_at (key_of ev) ≡ ok s → s.key ≡ key_of ev)
    (resp : Response)
    → terminal ev.phase ≡ false
    → (handle st env router σ at ev).1 ≡ ok resp
    → resp.end_session ≡ false
    → IsContinued st law env router σ at ev own_key (handle st env router σ at ev).0 resp
handle-IsContinued st law env router σ at ev own_key resp live h more =
    Turn-IsContinued st law env router σ at ev own_key _ resp live h more
      (handle-Turn st env router σ at ev)

module _ (st : Store) (law : IsStore st) (env : Outside) (router : Router) (σ : st.State)
    (at : Times) (ev : Event) where
  Turn-over :
      (r : st.State × Result HandleError Response) (later : ℕ)
      → validate_key (key_of ev) ≡ ok tt
      → (st.delete σ at.stored_at (key_of ev)).1 ≡ ok tt
      → (terminal ev.phase ≡ true)
        ⊎ ((resp : Response) × (r.1 ≡ ok resp) × (resp.end_session ≡ true))
      → Turn st env router σ at ev r
      → st.load r.0 later (key_of ev) ≡ err not_found
  Turn-over r later good gone over (ended _) =
      law.load-delete σ at.stored_at later (key_of ev) good gone
  Turn-over r later good gone (inl over) (unrouted e live nowhere) =
      absurd (ground (arith, live, over))
  Turn-over r later good gone (inr (resp, h, over)) (unrouted e live nowhere) =
      absurd (ground arith)
  Turn-over r later good gone (inl over) (undelivered t routed e live there failed) =
      absurd (ground (arith, live, over))
  Turn-over r later good gone (inr (resp, h, over)) (undelivered t routed e live there failed) =
      absurd (ground arith)
  Turn-over r later good gone (inl over) (delivered t routed reply live there went) =
      absurd (ground (arith, live, over))
  Turn-over r later good gone (inr (resp, h, over)) (delivered t routed reply live there went) =
      let sess = session_for st env router σ at ev t in
      elim (Bool-cases reply.response.end_session) [
        | inl last ↦
            ap (λ (p : st.State × Result HandleError Response). st.load p.0 later (key_of ev))
              (finish_over st σ at (key_of ev) sess reply last)
            ∙ law.load-delete σ at.stored_at later (key_of ev) good gone
        | inr on ↦
            let (_, shown, _) =
              after_save-ok (st.save σ at.stored_at (keep_state reply sess)) reply.response resp (
                sym (
                  ap (λ (p : st.State × Result HandleError Response). p.1)
                    (finish_on st σ at (key_of ev) sess reply on))
                ∙ h) in
            absurd (ground (arith, on, over, ap (λ (q : Response). q.end_session) shown))
      ]

-- When the network ends the dialogue, or the tenant's screen ends it, nothing is left under its key.
-- The store keeps its contract, the key is valid and deleting succeeds.
pub handle_ends :
    (st : Store) (law : IsStore st) (env : Outside) (router : Router) (σ : st.State) (at : Times)
    (ev : Event) (later : ℕ)
    → validate_key (key_of ev) ≡ ok tt
    → (st.delete σ at.stored_at (key_of ev)).1 ≡ ok tt
    → (terminal ev.phase ≡ true)
      ⊎ ((resp : Response) × ((handle st env router σ at ev).1 ≡ ok resp)
          × (resp.end_session ≡ true))
    → st.load (handle st env router σ at ev).0 later (key_of ev) ≡ err not_found
handle_ends st law env router σ at ev later good gone over =
    Turn-over st law env router σ at ev _ later good gone over (handle-Turn st env router σ at ev)
