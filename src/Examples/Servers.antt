-- ===== src/Examples/Servers.antt =====
-- A Redis server as a map, and a JSON of sessions.
use openussd.Prelude.{
  inr, ℕ, ◌+◌, ◌*◌, ◌≡◌, ◌≢◌, refl, sym, ◌∙◌, ap, ◌⊎◌, inl, Bool, true, false, Option, none, some,
  [], ◌∷◌, ◌++◌, ltb, ◌==◌, ◌||◌, take, drop, length, if◌then◌else◌, some-injective, Bool-cases, ok,
  err, arith,
}
use openussd.Strings.{Text, text_eq}
use openussd.Strings.Equal.{text_eq_iff, text_eq_refl}
use openussd.Maps
use openussd.Maps.{Map}
use openussd.Maps.Laws.{lookup-insert, lookup-erase}
use openussd.Session.{Key, Session, stamp, failed}
use openussd.Session.Redis.{
  Redis, Reply, missing, value, Client, SessionJson, redis_store, redis_load, redis_save,
}
use openussd.Session.Redis.Laws.{IsRedis, ReadsBack, recoded, IsStoreUpTo, millisecond}
use openussd.Session.Redis.Keeps.{redis_store-IsStoreUpTo, redis_store_immortal}
use openussd.Httpx.Inbound.{new_session, key_of}
use openussd.Examples.Data.{dialled}

-- A value, the time at which it was set, and its lifetime.
abbrev pub Held : Type 0
Held = Text × ℕ × ℕ

abbrev pub lives : ℕ → Held → Bool
lives now (v, at, ttl) = ttl == 0 || ltb now (at + ttl)

abbrev pub alive : ℕ → Option Held → Option Text
alive now none = none
alive now (some h) = if lives now h then some h.0 else none

abbrev pub reply_of : Option Text → Reply
reply_of none = missing
reply_of (some v) = value v

abbrev pub map_client : Client
map_client = record {
  Server = Map Held;
  parse_url = λ url. some [];
  ping = λ σ. true;
  get = λ σ now k. reply_of (alive now (Maps.lookup k σ));
  set = λ σ now k v ttl. (Maps.insert k (v, now, ttl) σ, true);
  del = λ σ now k. (Maps.erase k σ, true);
  shut = λ σ. (σ, true);
}

ne→text_eq : (j k : Text) → j ≢ k → text_eq j k ≡ false
ne→text_eq j k h = ground (arith, text_eq_iff j k)

stored_here :
    (now later ttl : ℕ) (k v : Text) (σ : Map Held)
    → alive later (Maps.lookup k (Maps.insert k (v, now, ttl) σ)) ≡ alive later (some (v, now, ttl))
stored_here now later ttl k v σ = ap (alive later) (
    lookup-insert k k (v, now, ttl) σ
    ∙ ap (λ b. if b then some (v, now, ttl) else Maps.lookup k σ) (text_eq_refl k))

set_known :
    (now later ttl : ℕ) (k v w : Text) (σ : Map Held)
    → alive later (some (v, now, ttl)) ≡ some w
    → (w ≡ v) ⊎ (alive later (Maps.lookup k σ) ≡ some w)
set_known now later ttl k v w σ h = elim (Bool-cases (lives later (v, now, ttl))) [
  | inl here ↦ inl (sym (some-injective (rw here at h)))
  | inr gone ↦ absurd (ground (arith, rw gone at h))
]

pub map_client-IsRedis : IsRedis map_client
map_client-IsRedis = record {
  holds = λ σ now k. alive now (Maps.lookup k σ);
  get_missing = λ σ now k h. inl (ap reply_of h);
  get_held = λ σ now k v h. inl (ap reply_of h);
  holds-set = λ σ now later ms k v done live.
      let b : lives later (v, now, ms * millisecond) ≡ true = ground arith in
      stored_here now later (ms * millisecond) k v σ ∙ rw b refl;
  holds-set_expired = λ σ now later ms k v some_time done past.
      let b : lives later (v, now, ms * millisecond) ≡ false = ground arith in
      stored_here now later (ms * millisecond) k v σ ∙ rw b refl;
  holds-set_forever = λ σ now later k v done. stored_here now later 0 k v σ;
  holds-set_other = λ σ now later ttl k k' v other. ap (alive later) (
      lookup-insert k k' (v, now, ttl) σ
      ∙ ap (λ b. if b then some (v, now, ttl) else Maps.lookup k' σ) (ne→text_eq k k' other));
  holds-set_known = λ σ now later ttl k v w h.
      set_known now later ttl k v w σ (sym (stored_here now later ttl k v σ) ∙ h);
  holds-del_known = λ σ now later k w h. absurd (
      ground (
        arith,
        sym (
              ap (alive later) (
                lookup-erase k k σ
                ∙ ap (λ b. if b then none else Maps.lookup k σ) (text_eq_refl k)))
            ∙ h,
      ));
  holds-del = λ σ now later k done.
      ap (alive later)
        (lookup-erase k k σ ∙ ap (λ b. if b then none else Maps.lookup k σ) (text_eq_refl k));
  holds-del_other = λ σ now later k k' other. ap (alive later) (
      lookup-erase k k' σ ∙ ap (λ b. if b then none else Maps.lookup k' σ) (ne→text_eq k k' other));
}

pub nothing_held : (later : ℕ) (k : Text) → map_client-IsRedis.holds [] later k ≡ none
unfolding map_client-IsRedis Maps.lookup
nothing_held later k = refl

-- A text behind its length.
abbrev spell : Text → Text → Text
spell s rest = length s ∷ s ++ rest

abbrev read_text : Text → Text × Text
read_text [] = ([], [])
read_text (n ∷ s) = (take n s, drop n s)

abbrev spell_state : Option Text → Text
spell_state none = []
spell_state (some s) = 0 ∷ s

abbrev read_state : Text → Option Text
read_state [] = none
read_state (c ∷ s) = some s

take_spelled : (s rest : Text) → take (length s) (s ++ rest) ≡ s
take_spelled [] rest = refl
take_spelled (c ∷ s) rest = ap (λ t. c ∷ t) (take_spelled s rest)

drop_spelled : (s rest : Text) → drop (length s) (s ++ rest) ≡ rest
drop_spelled [] rest = refl
drop_spelled (c ∷ s) rest = drop_spelled s rest

abbrev spell_end : Session → Text
spell_end s = s.turn ∷ s.created_at ∷ s.updated_at ∷ spell_state s.state

abbrev read_end : (mno session_id tenant msisdn shortcode : Text) → Text → Option Session
read_end mno session_id tenant msisdn shortcode [] = none
read_end mno session_id tenant msisdn shortcode (turn ∷ []) = none
read_end mno session_id tenant msisdn shortcode (turn ∷ created_at ∷ []) = none
read_end mno session_id tenant msisdn shortcode (turn ∷ created_at ∷ updated_at ∷ state) =
    some (record {
      key = record { mno = mno; session_id = session_id };
      tenant = tenant;
      msisdn = msisdn;
      shortcode = shortcode;
      turn = turn;
      state = read_state state;
      created_at = created_at;
      updated_at = updated_at;
    })

abbrev spell_session : Session → Text
spell_session s =
    spell s.key.mno
      (spell s.key.session_id (spell s.tenant (spell s.msisdn (spell s.shortcode (spell_end s)))))

abbrev read_session : Text → Option Session
read_session raw =
    let a = read_text raw in
    let b = read_text a.1 in
    let d = read_text b.1 in
    let e = read_text d.1 in let f = read_text e.1 in read_end a.0 b.0 d.0 e.0 f.0 f.1

abbrev pub spelled_json : SessionJson
spelled_json = record { marshal = λ s. some (spell_session s); unmarshal = read_session }

read_spelled : (s rest : Text) → read_text (spell s rest) ≡ (s, rest)
read_spelled s rest = rw (take_spelled s rest, drop_spelled s rest) refl

read_state_spelled : (state : Option Text) → read_state (spell_state state) ≡ state
read_state_spelled none = refl
read_state_spelled (some s) = refl

abbrev pub same_state : Option Text → Option Text
same_state state = state

spelled_session : (s : Session) → read_session (spell_session s) ≡ some s
spelled_session s =
    let e5 = read_spelled s.shortcode (spell_end s) in
    let r4 = spell s.shortcode (spell_end s) in
    let r3 = spell s.msisdn r4 in
    let r2 = spell s.tenant r3 in
    let r1 = spell s.key.session_id r2 in
    rw
      (
        take_spelled s.key.mno r1,
        drop_spelled s.key.mno r1,
        take_spelled s.key.session_id r2,
        drop_spelled s.key.session_id r2,
        take_spelled s.tenant r3,
        drop_spelled s.tenant r3,
        take_spelled s.msisdn r4,
        drop_spelled s.msisdn r4,
        take_spelled s.shortcode (spell_end s),
        drop_spelled s.shortcode (spell_end s),
        read_state_spelled s.state,
      )
      refl

pub spelled_json-ReadsBack : ReadsBack spelled_json same_state
spelled_json-ReadsBack s raw h = ap read_session (sym (some-injective h)) ∙ spelled_session s

abbrev pub three_seconds : Redis
three_seconds = record { ttl = 3_000 * millisecond; owned = false }

redis_store-IsStoreUpTo_example :
    IsStoreUpTo
      (redis_store map_client spelled_json three_seconds)
      (recoded same_state)
      (3_000 * millisecond)
redis_store-IsStoreUpTo_example =
    redis_store-IsStoreUpTo map_client map_client-IsRedis spelled_json same_state three_seconds
      3_000 spelled_json-ReadsBack (omega arith) refl

abbrev endless : Redis
endless = record { ttl = 0; owned = false }

abbrev first_session : Session
first_session = new_session (key_of dialled) dialled

redis_store_immortal_example :
    (redis_load map_client spelled_json endless
        (redis_save map_client spelled_json endless [] 1 first_session).0
        1_000_000_000_000_000
        (key_of dialled)
      ≡ ok (recoded same_state (stamp 1 first_session)))
    ⊎ ((e : Text) × (redis_load map_client spelled_json endless
            (redis_save map_client spelled_json endless [] 1 first_session).0
            1_000_000_000_000_000
            (key_of dialled)
          ≡ err (failed e)))
unfolding openussd.Session.validate_key new_session
redis_store_immortal_example =
    redis_store_immortal map_client map_client-IsRedis spelled_json same_state endless [] 1
      1_000_000_000_000_000 first_session spelled_json-ReadsBack refl saved
  where
    saved : (redis_save map_client spelled_json endless [] 1 first_session).1 ≡ ok tt
    saved = unfold redis_save in refl
