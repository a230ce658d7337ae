-- ===== src/Httpx/Inbound/Failures.antt =====
-- `handle` of gateway/internal/httpx/inbound.go: what a turn that fails leaves behind.
use openussd.Prelude.{◌≡◌, refl, sym, ◌∙◌, ap, ◌⊎◌, inl, inr, Result, ok, err, arith, Bool-cases}
use openussd.Canonical.Event.{Event}
use openussd.Session.{Store, StoreError}
use openussd.Tenant.Router.{Router}
use openussd.Tenant.Dispatch.{Outside}
use openussd.Canonical.Event.{Response}
use openussd.Httpx.Inbound.{Times, HandleError, saving, key_of, keep_state, handle}
use openussd.Httpx.Inbound.Steps.{
  after_save-err, finish_over, finish_on, session_for, Turn, ended, unrouted, undelivered,
  delivered, handle-Turn,
}

Turn-failed :
    (st : Store) (env : Outside) (router : Router) (σ : st.State) (at : Times) (ev : Event)
    (r : st.State × Result HandleError Response) (e : HandleError)
    → r.1 ≡ err e
    → Turn st env router σ at ev r
    → (r.0 ≡ σ) ⊎ ((se : StoreError) × (e ≡ saving se))
Turn-failed st env router σ at ev r e h (ended _) = absurd (ground arith)
Turn-failed st env router σ at ev r e h (unrouted _ live nowhere) = inl refl
Turn-failed st env router σ at ev r e h (undelivered t routed _ live there failed) = inl refl
Turn-failed st env router σ at ev r e h (delivered t routed reply live there went) =
    let sess = session_for st env router σ at ev t in
    elim (Bool-cases reply.response.end_session) [
      | inl last ↦
          let bad : ok reply.response ≡ err e =
            sym (
              ap (λ (p : st.State × Result HandleError Response). p.1)
                (finish_over st σ at (key_of ev) sess reply last))
            ∙ h in
          absurd (ground (arith, bad))
      | inr on ↦ inr (
          after_save-err (st.save σ at.stored_at (keep_state reply sess)) reply.response e (
            sym (
              ap (λ (p : st.State × Result HandleError Response). p.1)
                (finish_on st σ at (key_of ev) sess reply on))
            ∙ h))
    ]

-- A turn that fails leaves the store as it was, unless it is the save that failed.
pub handle_fails :
    (st : Store) (env : Outside) (router : Router) (σ : st.State) (at : Times) (ev : Event)
    (e : HandleError)
    → (handle st env router σ at ev).1 ≡ err e
    → ((handle st env router σ at ev).0 ≡ σ) ⊎ ((se : StoreError) × (e ≡ saving se))
handle_fails st env router σ at ev e h =
    Turn-failed st env router σ at ev _ e h (handle-Turn st env router σ at ev)
