-- ===== src/Session.antt =====
-- gateway/internal/session/store.go: keys, sessions, and what a session store promises.
pub mod Keys
pub mod Memory
pub mod Redis
use openussd.Prelude.{
  ℕ, ◌+◌, ◌≤◌, ◌<◌, ◌≡◌, ◌≢◌, ◌⊎◌, Bool, Option, none, List, [], ◌∷◌, ◌++◌, ◌==◌, if◌then◌else◌,
  Result, ok, err,
}
use openussd.Strings.{Text, is_empty}

-- 180 seconds.
abbrev pub default_ttl : ℕ
default_ttl = 180_000_000_000

pub record Key : Type 0 where
  pub mno : Text
  pub session_id : Text

unfoldable pub key_string : Key → Text
key_string k = k.mno ++ b':' ∷ k.session_id

pub data KeyError : Type 0 where
  no_mno no_session_id : KeyError

unfoldable pub validate_key : Key → Result KeyError Unit
validate_key k =
    if is_empty k.mno
    then err no_mno
    else if is_empty k.session_id
    then err no_session_id
    else ok tt

-- The state is `none` for a nil `json.RawMessage`; times are nanoseconds since Go's zero time.
pub record Session : Type 0 where
  pub key : Key
  pub tenant : Text
  pub msisdn : Text
  pub shortcode : Text
  pub turn : ℕ
  pub state : Option Text
  pub created_at : ℕ
  pub updated_at : ℕ

pub data StoreError : Type 0 where
  not_found : StoreError
  bad_key : KeyError → StoreError
  failed : Text → StoreError

-- The time stamps that every `Save` sets.
unfoldable pub stamp : ℕ → Session → Session
stamp now s = record s {
  created_at = if s.created_at == 0 then now else s.created_at;
  updated_at = now;
}

-- The interface `Store`. Each operation is given the time at which it runs.
pub record Store : Type 1 where
  pub State : Type 0
  pub load : State → ℕ → Key → Result StoreError Session
  pub save : State → ℕ → Session → State × Result StoreError Unit
  pub delete : State → ℕ → Key → State × Result StoreError Unit

-- The contract in the comments of `Store`: a saved session is found until its idle lifetime has
-- passed and not after it, a deleted one is not found, and other sessions are left alone.
pub record IsStore (st : Store) : Type 1 where
  pub ttl : st.State → ℕ
  pub load-save :
      (σ : st.State) (now later : ℕ) (s : Session)
      → (st.save σ now s).1 ≡ ok tt
      → later < now + ttl σ
      → st.load (st.save σ now s).0 later s.key ≡ ok (stamp now s)
  pub load-save_expired :
      (σ : st.State) (now later : ℕ) (s : Session)
      → (st.save σ now s).1 ≡ ok tt
      → now + ttl σ ≤ later
      → st.load (st.save σ now s).0 later s.key ≡ err not_found
  pub load-save_other :
      (σ : st.State) (now later : ℕ) (s : Session) (k : Key)
      → key_string s.key ≢ key_string k
      → st.load (st.save σ now s).0 later k ≡ st.load σ later k
  pub load-delete :
      (σ : st.State) (now later : ℕ) (k : Key)
      → validate_key k ≡ ok tt
      → (st.delete σ now k).1 ≡ ok tt
      → st.load (st.delete σ now k).0 later k ≡ err not_found
  pub load-delete_other :
      (σ : st.State) (now later : ℕ) (j k : Key)
      → key_string j ≢ key_string k
      → st.load (st.delete σ now j).0 later k ≡ st.load σ later k

-- A store returns what was saved under a key, with its state as the store rewrites it, and nothing
-- else, whatever fails. What it has may be more than a read that fails returns.
pub record IsHonest (st : Store) : Type 1 where
  pub has : st.State → ℕ → Key → Session → Type 0
  pub recode : Option Text → Option Text
  pub has-load :
      (σ : st.State) (later : ℕ) (k : Key) (r : Session)
      → st.load σ later k ≡ ok r
      → has σ later k r
  pub has-save :
      (σ : st.State) (now later : ℕ) (s : Session) (k : Key) (r : Session)
      → has (st.save σ now s).0 later k r
      → (r ≡ record (stamp now s) { state = recode (stamp now s).state }) ⊎ has σ later k r
  pub has-delete :
      (σ : st.State) (now later : ℕ) (j k : Key) (r : Session)
      → has (st.delete σ now j).0 later k r
      → has σ later k r
