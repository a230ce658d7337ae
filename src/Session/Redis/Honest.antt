-- ===== src/Session/Redis/Honest.antt =====
-- gateway/internal/session/redis.go: where the sessions that are read come from.
use openussd.Prelude.{
  ℕ, ◌≡◌, refl, sym, ◌∙◌, ap, subst, ◌⊎◌, inl, inr, Option, some, ok, arith, Bool-cases,
  Option-cases, Result-cases, some-injective,
}
use openussd.Strings.{Text, text_eq}
use openussd.Strings.Equal.{text_eq_iff}
use openussd.Session.{Key, Session, stamp, validate_key, IsHonest}
use openussd.Session.Redis.{
  Redis, Client, SessionJson, redis_key, put, redis_load, redis_save, redis_delete, redis_store,
}
use openussd.Session.Redis.Laws.{IsRedis, ReadsBack}
use openussd.Session.Redis.Found.{found, load_found}

module _ (c : Client) (server : IsRedis c) (json : SessionJson) (r : Redis) where
  -- What is found is held as JSON that reads as it.
  pub found-eq-ok :
      (σ : c.Server) (later : ℕ) (k : Key) (s : Session)
      → found c server json r σ later k ≡ ok s
      → (validate_key k ≡ ok tt)
        × (raw : Text) × (server.holds σ later (redis_key k) ≡ some raw)
        × (json.unmarshal raw ≡ some s)
  found-eq-ok σ later k s h = elim (Result-cases (validate_key k)) [
    | inr (e, bad) ↦ absurd (ground (arith, rw (bad, found) at h))
    | inl (a, fine) ↦ elim (Option-cases (server.holds σ later (redis_key k))) [
      | inl nothing ↦ absurd (ground (arith, rw (fine, found, nothing) at h))
      | inr (raw, held) ↦ elim (Option-cases (json.unmarshal raw)) [
        | inl bad ↦ absurd (ground (arith, rw (fine, found, held, bad) at h))
        | inr (s', reads) ↦
            (fine, raw, held, reads ∙ ap some (ground (arith, rw (fine, found, held, reads) at h)))
      ]
    ]
  ]

  found_of :
      (σ : c.Server) (later : ℕ) (k : Key) (s : Session) (raw : Text)
      → validate_key k ≡ ok tt
      → server.holds σ later (redis_key k) ≡ some raw
      → json.unmarshal raw ≡ some s
      → found c server json r σ later k ≡ ok s
  found_of σ later k s raw fine held reads = rw (fine, found, held, reads) refl

  pub load-found :
      (σ : c.Server) (later : ℕ) (k : Key) (s : Session)
      → redis_load c json r σ later k ≡ ok s
      → found c server json r σ later k ≡ ok s
  load-found σ later k s h = elim (load_found c server json r σ later k) [
    | inl same ↦ sym same ∙ h
    | inr (e, lost) ↦ absurd (ground (arith, sym lost ∙ h))
  ]

  -- What is held under any key after a write, confirmed or not.
  set_known :
      (σ : c.Server) (now later ttl : ℕ) (j k v w : Text)
      → server.holds (c.set σ now j v ttl).0 later k ≡ some w
      → (w ≡ v) ⊎ (server.holds σ later k ≡ some w)
  set_known σ now later ttl j k v w h = elim (Bool-cases (text_eq j k)) [
    | inl here ↦
        let same = (text_eq_iff j k).0 here in
        subst (λ i. (w ≡ v) ⊎ (server.holds σ later i ≡ some w)) same
          (server.holds-set_known σ now later ttl j v w
            (ap (server.holds (c.set σ now j v ttl).0 later) same ∙ h))
    | inr other ↦ inr (
        sym (
          server.holds-set_other σ now later ttl j k v
            (λ e. ground (arith, other, text_eq_iff j k, e)))
        ∙ h)
  ]

  del_known :
      (σ : c.Server) (now later : ℕ) (j k w : Text)
      → server.holds (c.del σ now j).0 later k ≡ some w
      → server.holds σ later k ≡ some w
  del_known σ now later j k w h = elim (Bool-cases (text_eq j k)) [
    | inl here ↦
        let same = (text_eq_iff j k).0 here in
        subst (λ i. server.holds σ later i ≡ some w) same
          (server.holds-del_known σ now later j w
            (ap (server.holds (c.del σ now j).0 later) same ∙ h))
    | inr other ↦
        sym
          (server.holds-del_other σ now later j k (λ e. ground (arith, other, text_eq_iff j k, e)))
        ∙ h
  ]

  -- A save writes the JSON of the stamped session, or nothing.
  saved_cases :
      (σ : c.Server) (now : ℕ) (s : Session)
      → ((redis_save c json r σ now s).0 ≡ σ)
        ⊎ ((raw : Text) × (json.marshal (stamp now s) ≡ some raw)
            × ((redis_save c json r σ now s).0 ≡ (c.set σ now (redis_key s.key) raw r.ttl).0))
  unfolding redis_save
  saved_cases σ now s = elim (Result-cases (validate_key s.key)) [
    | inr (e, bad) ↦ inl (rw (bad, redis_save) refl)
    | inl (a, fine) ↦ elim (Option-cases (json.marshal (stamp now s))) [
      | inl lost ↦ inl (rw (fine, redis_save, put, lost) refl)
      | inr (raw, written) ↦ inr (raw, written, rw (fine, redis_save, put, written) refl)
    ]
  ]

  pub found-save :
      (recode : Option Text → Option Text)
      → ReadsBack json recode
      → (σ : c.Server) (now later : ℕ) (s : Session) (k : Key) (s' : Session)
      → found c server json r (redis_save c json r σ now s).0 later k ≡ ok s'
      → (s' ≡ record (stamp now s) { state = recode (stamp now s).state })
        ⊎ (found c server json r σ later k ≡ ok s')
  found-save recode reads σ now later s k s' h = elim (saved_cases σ now s) [
    | inl same ↦ inr (subst (λ τ. found c server json r τ later k ≡ ok s') same h)
    | inr (raw, written, set) ↦
        let (fine, w, held, read) =
          found-eq-ok (c.set σ now (redis_key s.key) raw r.ttl).0 later k s'
            (subst (λ τ. found c server json r τ later k ≡ ok s') set h) in
        elim (set_known σ now later r.ttl (redis_key s.key) (redis_key k) raw w held) [
          | inl this ↦
              inl (
                some-injective
                  (sym read ∙ ap json.unmarshal this ∙ reads (stamp now s) raw written))
          | inr old ↦ inr (found_of σ later k s' w fine old read)
        ]
  ]

  pub found-delete :
      (σ : c.Server) (now later : ℕ) (j k : Key) (s : Session)
      → found c server json r (redis_delete c json r σ now j).0 later k ≡ ok s
      → found c server json r σ later k ≡ ok s
  unfolding redis_delete
  found-delete σ now later j k s h =
      let (fine, raw, held, read) = found-eq-ok (redis_delete c json r σ now j).0 later k s h in
      found_of σ later k s raw fine (del_known σ now later (redis_key j) (redis_key k) raw held)
        read

-- The Redis store returns only sessions that were saved, whether the save was confirmed or not, as
-- they were stamped and with their state as JSON writes it, and deleting adds none.
abbrev pub redis_honesty :
    (c : Client) (server : IsRedis c) (json : SessionJson) (recode : Option Text → Option Text)
    (r : Redis)
    → ReadsBack json recode
    → IsHonest (redis_store c json r)
redis_honesty c server json recode r reads = record {
  has = λ σ later k s. found c server json r σ later k ≡ ok s;
  recode = recode;
  has-load = load-found c server json r;
  has-save = found-save c server json r recode reads;
  has-delete = found-delete c server json r;
}
