-- ===== src/Session/Redis/Keeps.antt =====
-- gateway/internal/session/redis.go: the store keeps the contract of `Store`, its failures aside.
use openussd.Prelude.{
  ℕ, ◌+◌, ◌*◌, ◌≤◌, ◌<◌, ◌≡◌, refl, sym, ◌∙◌, ap, subst, ◌⊎◌, inl, inr, true, Option, none, some,
  ok, err,
}
use openussd.Strings.{Text}
use openussd.Session.{Session, stamp, not_found, failed}
use openussd.Session.Redis.{
  Redis, Client, SessionJson, redis_key, redis_load, redis_save, redis_store,
}
use openussd.Session.Redis.Laws.{IsRedis, ReadsBack, recoded, IsStoreUpTo, millisecond}
use openussd.Session.Redis.Found.{
  found, load_found, found_held, save_ok, found-delete, found-delete_other, found-save_other,
}

module _ (c : Client) (server : IsRedis c) (json : SessionJson) (r : Redis) where
  -- What is found after a save that succeeded, if what was set is still held.
  found_stored :
      (recode : Option Text → Option Text)
      → ReadsBack json recode
      → (σ : c.Server) (now later : ℕ) (s : Session) → (redis_save c json r σ now s).1 ≡ ok tt
      → ((raw : Text)
          → (c.set σ now (redis_key s.key) raw r.ttl).1 ≡ true
          → server.holds (c.set σ now (redis_key s.key) raw r.ttl).0 later (redis_key s.key)
            ≡ some raw)
      → found c server json r (redis_save c json r σ now s).0 later s.key
        ≡ ok (recoded recode (stamp now s))
  found_stored recode reads σ now later s h holds =
      let (fine, raw, written, done, same) = save_ok c server json r σ now s h in
      ap (λ (τ : c.Server). found c server json r τ later s.key) same
      ∙ found_held c server json r (c.set σ now (redis_key s.key) raw r.ttl).0 later s.key
          (some raw) fine (holds raw done)
      ∙ rw (reads (stamp now s) raw written) refl

  found_gone :
      (σ : c.Server) (now later : ℕ) (s : Session)
      → (redis_save c json r σ now s).1 ≡ ok tt
      → ((raw : Text)
          → (c.set σ now (redis_key s.key) raw r.ttl).1 ≡ true
          → server.holds (c.set σ now (redis_key s.key) raw r.ttl).0 later (redis_key s.key) ≡ none)
      → found c server json r (redis_save c json r σ now s).0 later s.key ≡ err not_found
  found_gone σ now later s h gone =
      let (fine, raw, written, done, same) = save_ok c server json r σ now s h in
      ap (λ (τ : c.Server). found c server json r τ later s.key) same
      ∙ found_held c server json r (c.set σ now (redis_key s.key) raw r.ttl).0 later s.key none fine
          (gone raw done)

-- The Redis store keeps the contract of `Store`, but that a read may fail and that a state is read
-- back as JSON writes it. Its lifetime is a number of milliseconds and not 0.
pub redis_store-IsStoreUpTo :
    (c : Client) (server : IsRedis c) (json : SessionJson) (recode : Option Text → Option Text)
    (r : Redis) (ms : ℕ)
    → ReadsBack json recode
    → 0 < ms
    → r.ttl ≡ ms * millisecond
    → IsStoreUpTo (redis_store c json r) (recoded recode) r.ttl
redis_store-IsStoreUpTo c server json recode r ms reads some_time exact = record {
  found = found c server json r;
  load_found = load_found c server json r;
  found-save = λ σ now later s h live.
      found_stored c server json r recode reads σ now later s h (λ raw done.
        subst
          (λ ttl.
            later < now + ttl
            → (c.set σ now (redis_key s.key) raw ttl).1 ≡ true
            → server.holds (c.set σ now (redis_key s.key) raw ttl).0 later (redis_key s.key)
              ≡ some raw)
          (sym exact) (λ live done. server.holds-set σ now later ms (redis_key s.key) raw done live)
          live done);
  found-save_expired = λ σ now later s h past.
      found_gone c server json r σ now later s h (λ raw done.
        subst
          (λ ttl.
            now + ttl ≤ later
            → (c.set σ now (redis_key s.key) raw ttl).1 ≡ true
            → server.holds (c.set σ now (redis_key s.key) raw ttl).0 later (redis_key s.key) ≡ none)
          (sym exact)
          (λ past done.
            server.holds-set_expired σ now later ms (redis_key s.key) raw some_time done past)
          past done);
  found-save_other = found-save_other c server json r;
  found-delete = found-delete c server json r;
  found-delete_other = found-delete_other c server json r;
}

-- With a lifetime of 0 a session that was saved never expires: a read at any later time returns it,
-- with its state as JSON writes it, or fails.
pub redis_store_immortal :
    (c : Client) (server : IsRedis c) (json : SessionJson) (recode : Option Text → Option Text)
    (r : Redis) (σ : c.Server) (now later : ℕ) (s : Session)
    → ReadsBack json recode
    → r.ttl ≡ 0
    → (redis_save c json r σ now s).1 ≡ ok tt
    → (redis_load c json r (redis_save c json r σ now s).0 later s.key
        ≡ ok (recoded recode (stamp now s)))
      ⊎ ((e : Text) × (redis_load c json r (redis_save c json r σ now s).0 later s.key
            ≡ err (failed e)))
redis_store_immortal c server json recode r σ now later s reads endless h =
    let kept = found_stored c server json r recode reads σ now later s h (λ raw.
      subst
        (λ ttl.
          (c.set σ now (redis_key s.key) raw ttl).1 ≡ true
          → server.holds (c.set σ now (redis_key s.key) raw ttl).0 later (redis_key s.key)
            ≡ some raw)
        (sym endless) (server.holds-set_forever σ now later (redis_key s.key) raw)) in
    elim (load_found c server json r (redis_save c json r σ now s).0 later s.key) [
      | inl read ↦ inl (read ∙ kept)
      | inr lost ↦ inr lost
    ]
