-- ===== src/Httpx/Inbound/Ownership.antt =====
-- Whose state the gateway hands to whom. What a tenant stores belongs to that tenant and to the
-- subscriber of the dialogue; `Own tenant msisdn state` says that it does.
use openussd.Prelude.{
  ℕ, ◌≡◌, refl, sym, ◌∙◌, subst, ◌⊎◌, inl, inr, false, not, ◌&&◌, Option, some, List, Result, ok,
  err, arith, Bool-cases, Option-cases, not-eq-false,
}
use openussd.Strings.{Text, text_eq, is_empty}
use openussd.Strings.Equal.{text_eq_iff}
use openussd.Canonical.Event.{Event, Response}
use openussd.Session.{Key, Session, Store, StoreError, IsHonest, stamp}
use openussd.Tenant.{Tenant}
use openussd.Tenant.Router.{Router, new_router, route}
use openussd.Tenant.Router.Route.{route-msisdn}
use openussd.Tenant.Router.Accepted.{route-IsUsable}
use openussd.Httpx.Inbound.Steps.{
  finish_store, loaded, session_for, Turn, ended, unrouted, undelivered, delivered, handle-Turn,
}
use openussd.Tenant.Dispatch.{Outside, deliver}
use openussd.Webhook.Envelope.{Request, Reply}
use openussd.Httpx.Inbound.{
  Times, HandleError, new_session, key_of, resumed, entered, keep_state, new_state, payload_of,
  finish, handle,
}

module _ (Own : Text → Text → Text → Type 0) where
  abbrev Holds : Text → Text → Option Text → Type 0
  Holds tenant msisdn state = (x : Text) → state ≡ some x → Own tenant msisdn x

  -- A session that has state has a tenant, which with the session's subscriber owns it.
  abbrev pub IsOwnedSession : Session → Type 0
  IsOwnedSession s =
      (x : Text) → s.state ≡ some x → (is_empty s.tenant ≡ false) × Own s.tenant s.msisdn x

  -- The tenants behave: they answer with state of their own, if the state that they are given is.
  abbrev pub IsHonoured : Outside → Type 0
  IsHonoured env =
      (now : ℕ) (t : Tenant) (payload : Request) (reply : Reply)
      → deliver env now t payload ≡ ok reply
      → ((x : Text) → payload.state ≡ some x → Own t.name payload.event.msisdn x)
      → (x : Text) → reply.state ≡ some x
      → Own t.name payload.event.msisdn x

  -- Every session that the store returns, now or later, is owned.
  abbrev pub IsOwned : (st : Store) → IsHonest st → st.State → Type 0
  IsOwned st honest σ =
      (later : ℕ) (k : Key) (s : Session) → honest.has σ later k s → IsOwnedSession s

  -- Who owns a state owns it as the store rewrites it.
  abbrev pub IsKept : (Option Text → Option Text) → Type 0
  IsKept recode =
      (name msisdn : Text) (state : Option Text) (x : Text)
      → recode state ≡ some x
      → (y : Text) × (state ≡ some y) × (Own name msisdn y → Own name msisdn x)

  recoded-owned :
      (recode : Option Text → Option Text) (s : Session)
      → IsKept recode
      → IsOwnedSession s
      → IsOwnedSession (record s { state = recode s.state })
  recoded-owned recode s kept owned x h =
      let (y, e, own) = kept s.tenant s.msisdn s.state x h in
      let (named, has) = owned y e in (named, own has)

  new_session-owned : (k : Key) (ev : Event) → IsOwnedSession (new_session k ev)
  unfolding new_session
  new_session-owned k ev x h = absurd (ground arith)

  resumed-owned :
      (ev : Event) (r : Result StoreError Session)
      → ((s : Session) → r ≡ ok s → IsOwnedSession s)
      → IsOwnedSession (resumed ev r)
  unfolding resumed
  resumed-owned ev (err e) h = new_session-owned (key_of ev) ev
  resumed-owned ev (ok s) h = elim (Bool-cases (not (text_eq s.msisdn ev.msisdn))) [
    | inl other ↦ rw other (new_session-owned (key_of ev) ev)
    | inr same ↦ rw same (h s refl)
  ]

resumed-msisdn : (ev : Event) (r : Result StoreError Session) → (resumed ev r).msisdn ≡ ev.msisdn
unfolding resumed new_session
resumed-msisdn ev (err e) = refl
resumed-msisdn ev (ok s) = elim (Bool-cases (not (text_eq s.msisdn ev.msisdn))) [
  | inl other ↦ rw other
  | inr same ↦ rw same ((text_eq_iff s.msisdn ev.msisdn).0 (not-eq-false _ same))
]

module _ (Own : Text → Text → Text → Type 0) where
  entered-state :
      (sess : Session) (name : Text)
      → IsOwnedSession Own sess
      → (x : Text) → (entered sess name).state ≡ some x
      → Own name sess.msisdn x
  unfolding entered
  entered-state sess name owned x h =
      elim (Bool-cases (not (is_empty sess.tenant) && not (text_eq sess.tenant name))) [
        | inl other ↦ absurd (ground (arith, rw other at h))
        | inr same ↦
            let (there, own) = owned x (rw same at h) in
            let here = (text_eq_iff sess.tenant name).0 (ground (arith, same, there)) in
            subst (λ t. Own t sess.msisdn x) here own
      ]

entered-tenant : (sess : Session) (name : Text) → (entered sess name).tenant ≡ name
unfolding entered
entered-tenant sess name = refl

entered-msisdn : (sess : Session) (name : Text) → (entered sess name).msisdn ≡ sess.msisdn
unfolding entered
entered-msisdn sess name = ground arith

new_state_from :
    (reply : Reply) (old : Option Text) (x : Text)
    → new_state reply old ≡ some x
    → (reply.state ≡ some x) ⊎ (old ≡ some x)
new_state_from reply old x h = elim (Bool-cases reply.clear_state) [
  | inl clear ↦ absurd (ground (arith, rw clear at h))
  | inr keep ↦ elim (Option-cases reply.state) [
    | inl nothing ↦ inr (rw (keep, nothing) at h)
    | inr (y, new) ↦ inl (new ∙ (rw (keep, new) at h))
  ]
]

keep_state-owned :
    (Own : Text → Text → Text → Type 0) (now : ℕ) (reply : Reply) (sess : Session)
    → is_empty sess.tenant ≡ false
    → ((x : Text) → sess.state ≡ some x → Own sess.tenant sess.msisdn x)
    → ((x : Text) → reply.state ≡ some x → Own sess.tenant sess.msisdn x)
    → IsOwnedSession Own (stamp now (keep_state reply sess))
unfolding stamp keep_state
keep_state-owned Own now reply sess named old new x h =
    (named, elim (new_state_from reply sess.state x h) [ inl it ↦ new x it | inr it ↦ old x it ])

module _ (Own : Text → Text → Text → Type 0) (st : Store) (honest : IsHonest st)
    (kept : IsKept Own honest.recode) where
  finish-IsOwned :
      (σ : st.State) (at : Times) (key : Key) (sess : Session) (reply : Reply)
      → IsOwned Own st honest σ
      → is_empty sess.tenant ≡ false
      → ((x : Text) → sess.state ≡ some x → Own sess.tenant sess.msisdn x)
      → ((x : Text) → reply.state ≡ some x → Own sess.tenant sess.msisdn x)
      → IsOwned Own st honest (finish st σ at key sess reply).0
  finish-IsOwned σ at key sess reply owned named old new later k s h =
      elim (finish_store st σ at key sess reply) [
        | inl deleted ↦ owned later k s (
            honest.has-delete σ at.stored_at later key k s
              (subst (λ τ. honest.has τ later k s) deleted h))
        | inr saved ↦
            elim (honest.has-save σ at.stored_at later (keep_state reply sess) k s
              (subst (λ τ. honest.has τ later k s) saved h)) [
                | inl this ↦ subst (IsOwnedSession Own) (sym this) (
                    recoded-owned Own honest.recode (stamp at.stored_at (keep_state reply sess))
                      kept (keep_state-owned Own at.stored_at reply sess named old new))
                | inr before ↦ owned later k s before
              ]
      ]

  module _ (env : Outside) (router : Router) (honoured : IsHonoured Own env) where
    sent-owned :
        (σ : st.State) (at : Times) (ev : Event) (t : Tenant)
        → IsOwned Own st honest σ
        → (x : Text) → (session_for st env router σ at ev t).state ≡ some x
        → Own t.name ev.msisdn x
    sent-owned σ at ev t owned x h =
        subst (λ m. Own t.name m x) (resumed-msisdn ev (st.load σ at.loaded_at (key_of ev)))
          (entered-state Own (loaded st env router σ at ev) t.name
            (resumed-owned Own ev _ (λ s k.
              owned at.loaded_at (key_of ev) s (honest.has-load σ at.loaded_at (key_of ev) s k)))
            x h)

    Turn-IsOwned :
        (σ : st.State) (at : Times) (ev : Event) (r : st.State × Result HandleError Response)
        → ((t : Tenant) (routed : Event)
            → route router ev ≡ ok (t, routed)
            → is_empty t.name ≡ false)
        → IsOwned Own st honest σ
        → Turn st env router σ at ev r
        → IsOwned Own st honest r.0
    unfolding entered
    Turn-IsOwned σ at ev r named owned (ended over) =
        λ later k s h. owned later k s (honest.has-delete σ at.stored_at later (key_of ev) k s h)
    Turn-IsOwned σ at ev r named owned (unrouted e live nowhere) = owned
    Turn-IsOwned σ at ev r named owned (undelivered t routed e live there failed) = owned
    Turn-IsOwned σ at ev r named owned (delivered t routed reply live there went) =
        let sess = session_for st env router σ at ev t in
        let subscriber : sess.msisdn ≡ ev.msisdn =
          entered-msisdn (loaded st env router σ at ev) t.name
          ∙ resumed-msisdn ev (st.load σ at.loaded_at (key_of ev)) in
        let given : (x : Text) → sess.state ≡ some x → Own t.name ev.msisdn x =
          sent-owned σ at ev t owned in
        let listener = route-msisdn router ev t routed there in
        let returned : (x : Text) → reply.state ≡ some x → Own t.name ev.msisdn x = λ x h.
          subst (λ m. Own t.name m x) listener
            (honoured at.sent_at t (payload_of sess routed) reply went
              (λ y k. subst (λ m. Own t.name m y) (sym listener) (given y k)) x h) in
        finish-IsOwned σ at (key_of ev) sess reply owned (named t routed there)
          (λ x h. subst (λ m. Own t.name m x) (sym subscriber) (given x h))
          (λ x h. subst (λ m. Own t.name m x) (sym subscriber) (returned x h))

-- Every turn keeps the invariant that each session the store has is owned by its tenant and subscriber,
-- and the state that the routed tenant is sent is its own for the subscriber calling, if the store
-- returns only what was saved, with its state as the store rewrites it for the same owner, the router
-- was accepted, and tenants answer with their own state.
pub handle-IsOwned :
    (Own : Text → Text → Text → Type 0) (st : Store) (env : Outside)
    (parse_scheme : Text → Option Text) (tenants : List Tenant) (router : Router) (σ : st.State)
    (at : Times) (ev : Event) (honest : IsHonest st)
    → IsKept Own honest.recode
    → IsHonoured Own env
    → new_router parse_scheme tenants ≡ ok router
    → IsOwned Own st honest σ
    → IsOwned Own st honest (handle st env router σ at ev).0
      × ((t : Tenant) (routed : Event) (x : Text)
          → route router ev ≡ ok (t, routed)
          → (payload_of (session_for st env router σ at ev t) routed).state ≡ some x
          → Own t.name ev.msisdn x)
handle-IsOwned Own st env parse_scheme tenants router σ at ev honest kept honoured built owned = (
  Turn-IsOwned Own st honest kept env router honoured σ at ev (handle st env router σ at ev)
      (λ t routed there. (route-IsUsable parse_scheme tenants router ev t routed built there).named)
      owned (handle-Turn st env router σ at ev),
  λ t routed x there h. sent-owned Own st honest kept env router honoured σ at ev t owned x h,
)
