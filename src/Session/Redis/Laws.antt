-- ===== src/Session/Redis/Laws.antt =====
-- gateway/internal/session/redis.go: what is read after each operation, over a server that keeps what
-- is set. The server is described by what it holds, which a read returns unless it fails.
use openussd.Prelude.{
  ℕ, ◌+◌, ◌*◌, ◌≤◌, ◌<◌, ◌≡◌, ◌≢◌, ◌⊎◌, true, Option, none, some, Result, ok, err,
}
use openussd.Strings.{Text}
use openussd.Session.{
  Key, key_string, validate_key, Session, stamp, StoreError, not_found, failed, Store,
}
use openussd.Session.Redis.{missing, broken, value, Client, SessionJson}

abbrev pub millisecond : ℕ
millisecond = 1_000_000

-- The documented behaviour of Redis and its client: what is set is held for its lifetime, which counts
-- in milliseconds and has no end if it is 0; what is deleted is not held; a read returns what is held
-- or fails. Of a write that was not confirmed it is known
-- that it writes its value under its key or nothing.
pub record IsRedis (c : Client) : Type 0 where
  pub holds : c.Server → ℕ → Text → Option Text
  pub get_missing :
      (σ : c.Server) (now : ℕ) (k : Text)
      → holds σ now k ≡ none
      → (c.get σ now k ≡ missing) ⊎ (c.get σ now k ≡ broken)
  pub get_held :
      (σ : c.Server) (now : ℕ) (k v : Text)
      → holds σ now k ≡ some v
      → (c.get σ now k ≡ value v) ⊎ (c.get σ now k ≡ broken)
  pub holds-set :
      (σ : c.Server) (now later ms : ℕ) (k v : Text)
      → (c.set σ now k v (ms * millisecond)).1 ≡ true
      → later < now + ms * millisecond
      → holds (c.set σ now k v (ms * millisecond)).0 later k ≡ some v
  pub holds-set_expired :
      (σ : c.Server) (now later ms : ℕ) (k v : Text)
      → 0 < ms
      → (c.set σ now k v (ms * millisecond)).1 ≡ true
      → now + ms * millisecond ≤ later
      → holds (c.set σ now k v (ms * millisecond)).0 later k ≡ none
  pub holds-set_forever :
      (σ : c.Server) (now later : ℕ) (k v : Text)
      → (c.set σ now k v 0).1 ≡ true
      → holds (c.set σ now k v 0).0 later k ≡ some v
  pub holds-set_other :
      (σ : c.Server) (now later ttl : ℕ) (k k' v : Text)
      → k ≢ k'
      → holds (c.set σ now k v ttl).0 later k' ≡ holds σ later k'
  pub holds-set_known :
      (σ : c.Server) (now later ttl : ℕ) (k v w : Text)
      → holds (c.set σ now k v ttl).0 later k ≡ some w
      → (w ≡ v) ⊎ (holds σ later k ≡ some w)
  pub holds-del :
      (σ : c.Server) (now later : ℕ) (k : Text)
      → (c.del σ now k).1 ≡ true
      → holds (c.del σ now k).0 later k ≡ none
  pub holds-del_known :
      (σ : c.Server) (now later : ℕ) (k w : Text)
      → holds (c.del σ now k).0 later k ≡ some w
      → holds σ later k ≡ some w
  pub holds-del_other :
      (σ : c.Server) (now later : ℕ) (k k' : Text)
      → k ≢ k'
      → holds (c.del σ now k).0 later k' ≡ holds σ later k'

-- JSON reads back a session that it wrote, with its state as `recode` writes it: without insignificant
-- space, and with some characters escaped.
abbrev pub ReadsBack : SessionJson → (Option Text → Option Text) → Type 0
ReadsBack json recode =
    (s : Session) (raw : Text)
    → json.marshal s ≡ some raw
    → json.unmarshal raw ≡ some (record s { state = recode s.state })

abbrev pub recoded : (Option Text → Option Text) → Session → Session
recoded recode s = record s { state = recode s.state }

-- The contract of `Store` for a store whose reads may fail and which rewrites sessions: there is an
-- abstract view `found` of what it has, and a read returns what is found or fails.
pub record IsStoreUpTo (st : Store) (kept : Session → Session) (ttl : ℕ) : Type 1 where
  pub found : st.State → ℕ → Key → Result StoreError Session
  pub load_found :
      (σ : st.State) (now : ℕ) (k : Key)
      → (st.load σ now k ≡ found σ now k) ⊎ ((e : Text) × (st.load σ now k ≡ err (failed e)))
  pub found-save :
      (σ : st.State) (now later : ℕ) (s : Session)
      → (st.save σ now s).1 ≡ ok tt
      → later < now + ttl
      → found (st.save σ now s).0 later s.key ≡ ok (kept (stamp now s))
  pub found-save_expired :
      (σ : st.State) (now later : ℕ) (s : Session)
      → (st.save σ now s).1 ≡ ok tt
      → now + ttl ≤ later
      → found (st.save σ now s).0 later s.key ≡ err not_found
  pub found-save_other :
      (σ : st.State) (now later : ℕ) (s : Session) (k : Key)
      → key_string s.key ≢ key_string k
      → found (st.save σ now s).0 later k ≡ found σ later k
  pub found-delete :
      (σ : st.State) (now later : ℕ) (k : Key)
      → validate_key k ≡ ok tt
      → (st.delete σ now k).1 ≡ ok tt
      → found (st.delete σ now k).0 later k ≡ err not_found
  pub found-delete_other :
      (σ : st.State) (now later : ℕ) (j k : Key)
      → key_string j ≢ key_string k
      → found (st.delete σ now j).0 later k ≡ found σ later k
