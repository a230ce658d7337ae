-- ===== src/Session/Redis.antt =====
-- gateway/internal/session/redis.go: the store in Redis. The client and JSON are parameters.
pub mod Laws
pub mod Found
pub mod Keeps
pub mod Honest
use openussd.Prelude.{
  ℕ, Bool, true, false, Option, none, some, List, [], ◌∷◌, ◌++◌, if◌then◌else◌, Result, ok, err,
  map_err, ◌>>=◌, ◌>>◌,
}
use openussd.Strings.{Text, codes}
use openussd.Session.{
  Key, key_string, validate_key, Session, stamp, default_ttl, StoreError, not_found, bad_key,
  failed, Store,
}

abbrev pub redis_key_prefix : Text
redis_key_prefix = codes "openussd:session:"

-- The fields of the struct beside its client.
pub record Redis : Type 0 where
  pub ttl : ℕ
  pub owned : Bool

-- What `Get` returns: `redis.Nil`, another error, or the bytes.
pub data Reply : Type 0 where
  missing broken : Reply
  value : Text → Reply

-- `redis.UniversalClient`, with the server behind it as its state; the flag beside a changed state
-- says that no error was returned. `parse_url` is `ParseURL` with `NewClient`.
pub record Client : Type 1 where
  pub Server : Type 0
  pub parse_url : Text → Option Server
  pub ping : Server → Bool
  pub get : Server → ℕ → Text → Reply
  pub set : Server → ℕ → Text → Text → ℕ → Server × Bool
  pub del : Server → ℕ → Text → Server × Bool
  pub shut : Server → Server × Bool

-- `json.Marshal` and `json.Unmarshal` at the type of sessions.
pub record SessionJson : Type 0 where
  pub marshal : Session → Option Text
  pub unmarshal : Text → Option Session

unfoldable pub with_redis_ttl : ℕ → Redis → Redis
with_redis_ttl ttl r = record r { ttl = ttl }

unfoldable pub apply_redis_options : Redis → List (Redis → Redis) → Redis
apply_redis_options r [] = r
apply_redis_options r (option ∷ options) = apply_redis_options (option r) options

unfoldable pub new_redis_with_client : List (Redis → Redis) → Redis
unfolding apply_redis_options
new_redis_with_client options =
    apply_redis_options (record { ttl = default_ttl; owned = false }) options

pub data ConnectError : Type 0 where
  bad_redis_url not_connected : ConnectError

abbrev pub redis_key : Key → Text
redis_key k = redis_key_prefix ++ key_string k

abbrev acked : Text → Bool → Result StoreError Unit
acked what done = if done then ok tt else err (failed what)

module _ (client : Client) where
  -- The changed state of the client is lost if the store is not returned.
  unfoldable pub new_redis :
      Text → List (Redis → Redis) → Result ConnectError (Redis × client.Server)
  unfolding new_redis_with_client
  new_redis url options = elim (client.parse_url url) [
    | none ↦ err bad_redis_url
    | some σ ↦
        if client.ping σ
        then ok (record (new_redis_with_client options) { owned = true }, σ)
        else err not_connected
  ]

  module _ (json : SessionJson) (r : Redis) where
    -- What `Load` makes of the reply.
    abbrev pub read_reply : Reply → Result StoreError Session
    read_reply missing = err not_found
    read_reply broken = err (failed (codes "redis get"))
    read_reply (value raw) = elim (json.unmarshal raw) [
      | none ↦ err (failed (codes "decoding stored session"))
      | some s ↦ ok s
    ]

    unfoldable pub redis_load : client.Server → ℕ → Key → Result StoreError Session
    redis_load σ now key = do
      map_err bad_key (validate_key key)
      read_reply (client.get σ now (redis_key key))

    -- `Save` behind the check of the key.
    abbrev pub put : client.Server → ℕ → Session → client.Server × Result StoreError Unit
    put σ now s = elim (json.marshal (stamp now s)) [
      | none ↦ (σ, err (failed (codes "encoding session")))
      | some raw ↦
          let (σ', done) = client.set σ now (redis_key s.key) raw r.ttl in
          (σ', acked (codes "redis set") done)
    ]

    unfoldable pub redis_save : client.Server → ℕ → Session → client.Server × Result StoreError Unit
    redis_save σ now s = elim (validate_key s.key) [
      | err e ↦ (σ, err (bad_key e))
      | ok _ ↦ put σ now s
    ]

    unfoldable pub redis_delete : client.Server → ℕ → Key → client.Server × Result StoreError Unit
    redis_delete σ now key =
        let (σ', done) = client.del σ now (redis_key key) in (σ', acked (codes "redis del") done)

    unfoldable pub redis_close : client.Server → client.Server × Result StoreError Unit
    redis_close σ =
        if r.owned
        then (let (σ', done) = client.shut σ in (σ', acked (codes "redis close") done))
        else (σ, ok tt)

    abbrev pub redis_store : Store
    redis_store = record {
      State = client.Server;
      load = redis_load;
      save = redis_save;
      delete = redis_delete;
    }
