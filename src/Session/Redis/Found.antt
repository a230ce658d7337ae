-- ===== src/Session/Redis/Found.antt =====
-- gateway/internal/session/redis.go: what is found under each key after each operation.
use openussd.Prelude.{
  ℕ, ◌≡◌, ◌≢◌, refl, sym, ◌∙◌, ap, ◌⊎◌, inl, inr, true, Option, none, some, [], ◌∷◌, ◌++◌, Result,
  ok, err, arith, Bool-cases, Option-cases, Result-cases,
}
use openussd.Strings.{Text, codes}
use openussd.Session.{
  Key, KeyError, key_string, validate_key, Session, stamp, StoreError, not_found, bad_key, failed,
}
use openussd.Session.Redis.{
  Redis, Reply, missing, broken, value, Client, SessionJson, redis_key, redis_key_prefix,
  read_reply, redis_load, put, redis_save, redis_delete,
}
use openussd.Session.Redis.Laws.{IsRedis}

tail_of : Text → Text
tail_of [] = []
tail_of (c ∷ s) = s

append_cancel : (p a b : Text) → p ++ a ≡ p ++ b → a ≡ b
unfolding tail_of
append_cancel [] a b h = h
append_cancel (c ∷ p) a b h = append_cancel p a b (ap tail_of h)

apart : (j k : Key) → key_string j ≢ key_string k → redis_key j ≢ redis_key k
apart j k h same = h (append_cancel redis_key_prefix (key_string j) (key_string k) same)

-- The reply that carries what is held.
abbrev held : Option Text → Reply
held none = missing
held (some raw) = value raw

module _ (c : Client) (server : IsRedis c) (json : SessionJson) (r : Redis) where
  -- The result of a read behind the check of its key.
  abbrev checked : Result KeyError Unit → Reply → Result StoreError Session
  checked (err e) reply = err (bad_key e)
  checked (ok _) reply = read_reply c json r reply

  -- What the store has under a key.
  abbrev pub found : c.Server → ℕ → Key → Result StoreError Session
  found σ now k = checked (validate_key k) (held (server.holds σ now (redis_key k)))

  load_lem :
      (σ : c.Server) (now : ℕ) (k : Key)
      → redis_load c json r σ now k ≡ checked (validate_key k) (c.get σ now (redis_key k))
  unfolding redis_load
  load_lem σ now k = elim (Result-cases (validate_key k)) [
    | inl (a, fine) ↦ rw (fine, redis_load) refl
    | inr (e, bad) ↦ rw (bad, redis_load) refl
  ]

  get_held_or_broken :
      (σ : c.Server) (now : ℕ) (k : Text)
      → (c.get σ now k ≡ held (server.holds σ now k)) ⊎ (c.get σ now k ≡ broken)
  get_held_or_broken σ now k = elim (Option-cases (server.holds σ now k)) [
    | inl nothing ↦ rw nothing (server.get_missing σ now k nothing)
    | inr (raw, e) ↦ rw e (server.get_held σ now k raw e)
  ]

  pub load_found :
      (σ : c.Server) (now : ℕ) (k : Key)
      → (redis_load c json r σ now k ≡ found σ now k)
        ⊎ ((e : Text) × (redis_load c json r σ now k ≡ err (failed e)))
  load_found σ now k = elim (get_held_or_broken σ now (redis_key k)) [
    | inl got ↦ inl (load_lem σ now k ∙ ap (checked (validate_key k)) got)
    | inr lost ↦ elim (Result-cases (validate_key k)) [
      | inl (a, fine) ↦ inr (
        codes "redis get",
        load_lem σ now k ∙ ap (checked (validate_key k)) lost ∙ ap (λ v. checked v broken) fine,
      )
      | inr (e, bad) ↦ inl (
          load_lem σ now k
          ∙ ap (λ v. checked v (c.get σ now (redis_key k))) bad
          ∙ sym (ap (λ v. checked v (held (server.holds σ now (redis_key k)))) bad))
    ]
  ]

  -- What is found under a valid key depends on what is held under the key of the server.
  pub found_held :
      (σ : c.Server) (now : ℕ) (k : Key) (v : Option Text)
      → validate_key k ≡ ok tt
      → server.holds σ now (redis_key k) ≡ v
      → found σ now k ≡ read_reply c json r (held v)
  found_held σ now k v fine h =
      ap (λ v. checked v (held (server.holds σ now (redis_key k)))) fine
      ∙ ap (λ v. read_reply c json r (held v)) h

  found_same :
      (σ τ : c.Server) (now : ℕ) (k : Key)
      → server.holds σ now (redis_key k) ≡ server.holds τ now (redis_key k)
      → found σ now k ≡ found τ now k
  found_same σ τ now k h = ap (λ v. checked (validate_key k) (held v)) h

  -- A save that succeeds has set the JSON of the stamped session.
  pub save_ok :
      (σ : c.Server) (now : ℕ) (s : Session)
      → (redis_save c json r σ now s).1 ≡ ok tt
      → (validate_key s.key ≡ ok tt)
        × (raw : Text) × (json.marshal (stamp now s) ≡ some raw)
        × ((c.set σ now (redis_key s.key) raw r.ttl).1 ≡ true)
        × ((redis_save c json r σ now s).0 ≡ (c.set σ now (redis_key s.key) raw r.ttl).0)
  unfolding redis_save
  save_ok σ now s h = elim (Result-cases (validate_key s.key)) [
    | inr (e, bad) ↦ absurd (ground (arith, bad))
    | inl (a, fine) ↦ elim (Option-cases (json.marshal (stamp now s))) [
      | inl lost ↦ absurd (ground (arith, rw (fine, redis_save, put, lost) at h))
      | inr (raw, written) ↦ elim (Bool-cases ((c.set σ now (redis_key s.key) raw r.ttl).1)) [
        | inl done ↦ (fine, raw, written, done, rw (fine, redis_save, put, written) refl)
        | inr lost ↦ absurd (ground (arith, rw (fine, redis_save, put, written, lost) at h))
      ]
    ]
  ]

  -- A save changes the server at the key of its session, or not at all.
  save_other :
      (σ : c.Server) (now later : ℕ) (s : Session) (k : Key)
      → key_string s.key ≢ key_string k
      → server.holds (redis_save c json r σ now s).0 later (redis_key k)
        ≡ server.holds σ later (redis_key k)
  unfolding redis_save
  save_other σ now later s k other = elim (Result-cases (validate_key s.key)) [
    | inr (e, bad) ↦ rw (bad, redis_save) refl
    | inl (a, fine) ↦ elim (Option-cases (json.marshal (stamp now s))) [
      | inl lost ↦ rw (fine, redis_save, put, lost) refl
      | inr (raw, written) ↦
          rw (fine, redis_save, put, written)
            (server.holds-set_other σ now later r.ttl (redis_key s.key) (redis_key k) raw
              (apart s.key k other))
    ]
  ]

  delete_ok :
      (σ : c.Server) (now : ℕ) (k : Key)
      → (redis_delete c json r σ now k).1 ≡ ok tt
      → (c.del σ now (redis_key k)).1 ≡ true
  unfolding redis_delete
  delete_ok σ now k h = elim (Bool-cases ((c.del σ now (redis_key k)).1)) [
    | inl done ↦ done
    | inr lost ↦ absurd (ground (arith, lost))
  ]

  pub found-delete :
      (σ : c.Server) (now later : ℕ) (k : Key)
      → validate_key k ≡ ok tt
      → (redis_delete c json r σ now k).1 ≡ ok tt
      → found (redis_delete c json r σ now k).0 later k ≡ err not_found
  unfolding redis_delete
  found-delete σ now later k fine h =
      found_held (redis_delete c json r σ now k).0 later k none fine
        (server.holds-del σ now later (redis_key k) (delete_ok σ now k h))

  pub found-delete_other :
      (σ : c.Server) (now later : ℕ) (j k : Key)
      → key_string j ≢ key_string k
      → found (redis_delete c json r σ now j).0 later k ≡ found σ later k
  unfolding redis_delete
  found-delete_other σ now later j k other =
      found_same (redis_delete c json r σ now j).0 σ later k
        (server.holds-del_other σ now later (redis_key j) (redis_key k) (apart j k other))

  pub found-save_other :
      (σ : c.Server) (now later : ℕ) (s : Session) (k : Key)
      → key_string s.key ≢ key_string k
      → found (redis_save c json r σ now s).0 later k ≡ found σ later k
  found-save_other σ now later s k other =
      found_same (redis_save c json r σ now s).0 σ later k (save_other σ now later s k other)
