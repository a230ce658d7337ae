-- ===== src/Httpx/Inbound/Shared.antt =====
-- The gateway over its Redis store: what any sequence of turns leads to.
use openussd.Prelude.{ℕ, List, ◌≡◌, Option, none, some, ok, arith}
use openussd.Strings.{Text}
use openussd.Canonical.Event.{Event}
use openussd.Session.{Key}
use openussd.Session.Redis.{Redis, Client, SessionJson, redis_key, redis_store}
use openussd.Session.Redis.Laws.{IsRedis, ReadsBack}
use openussd.Session.Redis.Honest.{found-eq-ok, redis_honesty}
use openussd.Tenant.{Tenant}
use openussd.Tenant.Router.{Router, new_router, route}
use openussd.Tenant.Dispatch.{Outside}
use openussd.Httpx.Inbound.{Times, payload_of, handle}
use openussd.Httpx.Inbound.Steps.{session_for}
use openussd.Httpx.Inbound.Ownership.{IsOwned, IsKept, IsHonoured, handle-IsOwned}

-- The servers that the gateway comes to from a first one, by turns.
pub data Serves (c : Client) (json : SessionJson) (r : Redis) (env : Outside) (router : Router)
    (first : c.Server) : c.Server → Type 0 where
  begun : Serves c json r env router first first
  turn :
      {σ : c.Server} (at : Times) (ev : Event)
      → Serves c json r env router first σ
      → Serves c json r env router first (handle (redis_store c json r) env router σ at ev).0

-- From a server that holds no session, whatever turns are taken, confirmed or not, a tenant is sent
-- only state that is its own for the subscriber calling, if the router was accepted, tenants answer
-- with their own state, and a state is its owner's as JSON rewrites it too.
pub Serves-IsOwned :
    (Own : Text → Text → Text → Type 0) (c : Client) (server : IsRedis c) (json : SessionJson)
    (recode : Option Text → Option Text) (r : Redis) (env : Outside)
    (parse_scheme : Text → Option Text) (tenants : List Tenant) (router : Router)
    (first σ : c.Server)
    → ReadsBack json recode
    → IsKept Own recode
    → IsHonoured Own env
    → new_router parse_scheme tenants ≡ ok router
    → ((later : ℕ) (k : Key) → server.holds first later (redis_key k) ≡ none)
    → Serves c json r env router first σ
    → (at : Times) (ev : Event) (t : Tenant) (routed : Event) (x : Text)
    → route router ev ≡ ok (t, routed)
    → (payload_of (session_for (redis_store c json r) env router σ at ev t) routed).state ≡ some x
    → Own t.name ev.msisdn x
Serves-IsOwned Own c server json recode r env parse_scheme tenants router first σ reads kept
      honoured built nothing h at ev =
    (handle-IsOwned Own (redis_store c json r) env parse_scheme tenants router σ at ev
      (redis_honesty c server json recode r reads) kept honoured built (owned h)).1
  where
    owned :
        {τ : c.Server}
        → Serves c json r env router first τ
        → IsOwned Own (redis_store c json r) (redis_honesty c server json recode r reads) τ
    owned begun = λ later k s found.
        let (fine, raw, held, read) = found-eq-ok c server json r first later k s found in
        absurd (ground (arith, nothing later k, held))
    owned (turn {σ = τ} at ev k) =
        (handle-IsOwned Own (redis_store c json r) env parse_scheme tenants router τ at ev
          (redis_honesty c server json recode r reads) kept honoured built (owned k)).0
