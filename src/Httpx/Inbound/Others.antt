-- ===== src/Httpx/Inbound/Others.antt =====
-- `handle` of gateway/internal/httpx/inbound.go: the key under which a turn saves, and what it leaves of
-- other dialogues.
use openussd.Prelude.{
  ℕ, ◌≡◌, ◌≢◌, refl, sym, ◌∙◌, ap, subst, inl, inr, Bool, true, false, if◌then◌else◌, Result, ok,
  err,
}
use openussd.Canonical.Event.{Event, Response}
use openussd.Session.{Key, key_string, Session, StoreError, Store, IsStore}
use openussd.Tenant.{Tenant}
use openussd.Tenant.Router.{Router}
use openussd.Tenant.Dispatch.{Outside}
use openussd.Webhook.Envelope.{Reply}
use openussd.Httpx.Inbound.{
  Times, HandleError, key_of, new_session, resumed, entered, keep_state, handle,
}
use openussd.Httpx.Inbound.Steps.{
  finish_store, loaded, session_for, Turn, ended, unrouted, undelivered, delivered, handle-Turn,
}

if_key : (k : Key) (b : Bool) (s t : Session) → s.key ≡ k → t.key ≡ k → (if b then s else t).key ≡ k
if_key k true s t h g = h
if_key k false s t h g = g

module _ (st : Store) (law : IsStore st) (env : Outside) (router : Router) (σ : st.State)
    (at : Times) (ev : Event)
    (own_key : (s : Session) → st.load σ at.loaded_at (key_of ev) ≡ ok s → s.key ≡ key_of ev) where
  resumed-key :
      (r : Result StoreError Session)
      → ((s : Session) → r ≡ ok s → s.key ≡ key_of ev)
      → (resumed ev r).key ≡ key_of ev
  unfolding resumed new_session
  resumed-key (err e) h = refl
  resumed-key (ok s) h = if_key (key_of ev) _ (new_session (key_of ev) ev) s refl (h s refl)

  session_for-key : (t : Tenant) → (session_for st env router σ at ev t).key ≡ key_of ev
  unfolding entered
  session_for-key t =
      let found : (loaded st env router σ at ev).key ≡ key_of ev = resumed-key _ own_key in
      if_key (key_of ev) _ _ (loaded st env router σ at ev) found found

  pub stored_key :
      (t : Tenant) (reply : Reply)
      → (keep_state reply (session_for st env router σ at ev t)).key ≡ key_of ev
  unfolding keep_state
  stored_key t reply = session_for-key t

  Turn-other :
      (r : st.State × Result HandleError Response) (later : ℕ) (k : Key)
      → key_string (key_of ev) ≢ key_string k
      → Turn st env router σ at ev r
      → st.load r.0 later k ≡ st.load σ later k
  Turn-other r later k other (ended _) =
      law.load-delete_other σ at.stored_at later (key_of ev) k other
  Turn-other r later k other (unrouted e live nowhere) = refl
  Turn-other r later k other (undelivered t routed e live there failed) = refl
  Turn-other r later k other (delivered t routed reply live there went) =
      let sess = session_for st env router σ at ev t in
      elim (finish_store st σ at (key_of ev) sess reply) [
        | inl deleted ↦
            ap (λ (τ : st.State). st.load τ later k) deleted
            ∙ law.load-delete_other σ at.stored_at later (key_of ev) k other
        | inr saved ↦
            ap (λ (τ : st.State). st.load τ later k) saved
            ∙ law.load-save_other σ at.stored_at later (keep_state reply sess) k
                (subst (λ j. key_string j ≢ key_string k) (sym (stored_key t reply)) other)
      ]

-- A turn leaves what is found under every key whose store key differs from the event's. The store
-- keeps its contract, and a session found under the event's key carries it.
pub handle_others :
    (st : Store) (law : IsStore st) (env : Outside) (router : Router) (σ : st.State) (at : Times)
    (ev : Event)
    (own_key : (s : Session) → st.load σ at.loaded_at (key_of ev) ≡ ok s → s.key ≡ key_of ev)
    (later : ℕ) (k : Key)
    → key_string (key_of ev) ≢ key_string k
    → st.load (handle st env router σ at ev).0 later k ≡ st.load σ later k
handle_others st law env router σ at ev own_key later k other =
    Turn-other st law env router σ at ev own_key _ later k other (handle-Turn st env router σ at ev)
