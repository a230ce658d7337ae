-- ===== src/Httpx/Inbound/Histories.antt =====
-- The gateway over its memory store: what any sequence of turns and sweeps leads to.
use openussd.Prelude.{ℕ, ◌≡◌, List, [], ◌∷◌, inl, inr, subst, Option, some, Result, ok, arith, sym}
use openussd.Strings.{Text}
use openussd.Canonical.Event.{Event, Response}
use openussd.Maps
use openussd.Session.{Key, Session}
use openussd.Session.Memory.{Memory, with_ttl, load, new_memory, evict_expired, memory_store}
use openussd.Session.Memory.Sweeps.{
  IsWellFormed, delete-IsWellFormed, save-IsWellFormed, evict_expired-IsWellFormed,
}
use openussd.Session.Memory.Honest.{load-eq-ok, memory_honesty, load-evict_expired_known}
use openussd.Tenant.{Tenant}
use openussd.Tenant.Router.{Router, new_router, route}
use openussd.Tenant.Dispatch.{Outside}
use openussd.Httpx.Inbound.{Times, HandleError, key_of, keep_state, payload_of, handle}
use openussd.Httpx.Inbound.Steps.{
  finish_store, session_for, Turn, ended, unrouted, undelivered, delivered, handle-Turn,
}
use openussd.Httpx.Inbound.Ownership.{IsOwned, IsKept, IsHonoured, handle-IsOwned}

module _ (env : Outside) (router : Router) (ttl : ℕ) where
  -- The stores that the gateway comes to, from the empty one, by turns and by sweeps.
  pub data Reaches : Memory → Type 0 where
    start : Reaches (new_memory (with_ttl ttl ∷ []))
    turn :
        {m : Memory} (at : Times) (ev : Event)
        → Reaches m
        → Reaches (handle memory_store env router m at ev).0
    swept : {m : Memory} (now : ℕ) → Reaches m → Reaches (evict_expired m now)

  started-IsWellFormed : IsWellFormed (new_memory (with_ttl ttl ∷ []))
  unfolding new_memory with_ttl
  started-IsWellFormed = tt

  nothing_loaded :
      (later : ℕ) (k : Key) (s : Session) → load (new_memory (with_ttl ttl ∷ [])) later k ≡ ok s → ⊥
  nothing_loaded later k s h =
      let (_, read) = load-eq-ok (new_memory (with_ttl ttl ∷ [])) later k s h in
      unfold new_memory with_ttl Maps.lookup in ground (arith, read)

  Turn-IsWellFormed :
      (m : Memory) (at : Times) (ev : Event) (r : Memory × Result HandleError Response)
      → IsWellFormed m
      → Turn memory_store env router m at ev r
      → IsWellFormed r.0
  Turn-IsWellFormed m at ev r wf (ended over) = delete-IsWellFormed m at.stored_at (key_of ev) wf
  Turn-IsWellFormed m at ev r wf (unrouted e live nowhere) = wf
  Turn-IsWellFormed m at ev r wf (undelivered t routed e live there failed) = wf
  Turn-IsWellFormed m at ev r wf (delivered t routed reply live there went) =
      let sess = session_for memory_store env router m at ev t in
      elim (finish_store memory_store m at (key_of ev) sess reply) [
        | inl e ↦ subst IsWellFormed (sym e) (delete-IsWellFormed m at.stored_at (key_of ev) wf)
        | inr e ↦
            subst IsWellFormed (sym e) (save-IsWellFormed m at.stored_at (keep_state reply sess) wf)
      ]

  reached-IsWellFormed : {m : Memory} → Reaches m → IsWellFormed m
  reached-IsWellFormed start = started-IsWellFormed
  reached-IsWellFormed (turn {m} at ev h) =
      Turn-IsWellFormed m at ev _ (reached-IsWellFormed h)
        (handle-Turn memory_store env router m at ev)
  reached-IsWellFormed (swept {m} now h) = evict_expired-IsWellFormed m now (reached-IsWellFormed h)

-- From an empty memory store, whatever turns are taken and sweeps are made in whatever order, a tenant
-- is sent only state that is its own for the subscriber calling, and the keys of the store stay
-- distinct, if the router was accepted and tenants answer with their own state.
pub Reaches-IsOwned :
    (Own : Text → Text → Text → Type 0) (env : Outside) (parse_scheme : Text → Option Text)
    (tenants : List Tenant) (router : Router) (ttl : ℕ) (m : Memory)
    → IsHonoured Own env
    → new_router parse_scheme tenants ≡ ok router
    → Reaches env router ttl m
    → IsWellFormed m
      × ((at : Times) (ev : Event) (t : Tenant) (routed : Event) (x : Text)
          → route router ev ≡ ok (t, routed)
          → (payload_of (session_for memory_store env router m at ev t) routed).state ≡ some x
          → Own t.name ev.msisdn x)
Reaches-IsOwned Own env parse_scheme tenants router ttl m honoured built h = (
  reached-IsWellFormed env router ttl h,
  λ at ev.
      (handle-IsOwned Own memory_store env parse_scheme tenants router m at ev memory_honesty
        same_owner honoured built (owned h)).1,
)
  where
    same_owner : IsKept Own (λ state. state)
    same_owner name msisdn state x h = (x, h, λ own. own)

    owned : {n : Memory} → Reaches env router ttl n → IsOwned Own memory_store memory_honesty n
    owned start = λ later k s e. absurd (nothing_loaded env router ttl later k s e)
    owned (turn {m = n} at ev k) =
        (handle-IsOwned Own memory_store env parse_scheme tenants router n at ev memory_honesty
          same_owner honoured built (owned k)).0
    owned (swept {m = n} now k) = λ later j s e.
        owned k later j s
          (load-evict_expired_known n now later j s (reached-IsWellFormed env router ttl k) e)
