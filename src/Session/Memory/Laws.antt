-- ===== src/Session/Memory/Laws.antt =====
-- gateway/internal/session/memory.go: what is read after each operation.
use openussd.Prelude.{
  ℕ, ◌+◌, ◌≤◌, ◌<◌, ◌≡◌, ◌≢◌, sym, ◌∙◌, ap, false, Option, none, some, if◌then◌else◌, Result, ok,
  err, arith, inl, inr, if_true, if_false, Option-cases, Result-cases,
}
use openussd.Strings.{Text, text_eq}
use openussd.Strings.Equal.{text_eq_iff, text_eq_refl}
use openussd.Maps
use openussd.Maps.{Map, HasDistinctKeys}
use openussd.Maps.Laws.{lookup-insert, lookup-erase}
use openussd.Session.{
  Key, KeyError, key_string, validate_key, Session, stamp, StoreError, not_found, bad_key, IsStore,
}
use openussd.Session.Memory.{
  MemoryItem, Memory, expired, load, save, delete, memory_store, store_item,
}

-- What `Load` makes of the item under the key.
abbrev pub read_item : ℕ → Option MemoryItem → Result StoreError Session
read_item now none = err not_found
read_item now (some item) = if expired now item then err not_found else ok item.session

pub load_lem :
    (m : Memory) (now : ℕ) (k : Key)
    → validate_key k ≡ ok tt
    → load m now k ≡ read_item now (Maps.lookup (key_string k) m.items)
unfolding load
load_lem m now k h = rw h (elim (Option-cases (Maps.lookup (key_string k) m.items)) [
  | inl miss ↦ rw miss
  | inr (item, hit) ↦ rw hit
])

pub load_bad_key :
    (m : Memory) (now : ℕ) (k : Key) (e : KeyError)
    → validate_key k ≡ err e
    → load m now k ≡ err (bad_key e)
unfolding load
load_bad_key m now k e h = rw h

-- Two stores with the same item under a key answer alike.
pub load_same :
    (m n : Memory) (now : ℕ) (k : Key)
    → (validate_key k ≡ ok tt
        → read_item now (Maps.lookup (key_string k) m.items)
          ≡ read_item now (Maps.lookup (key_string k) n.items))
    → load m now k ≡ load n now k
load_same m n now k h = elim (Result-cases (validate_key k)) [
  | inl (a, fine) ↦ load_lem m now k fine ∙ (h fine ∙ sym (load_lem n now k fine))
  | inr (e, bad) ↦ load_bad_key m now k e bad ∙ sym (load_bad_key n now k e bad)
]

pub save_ok :
    (m : Memory) (now : ℕ) (s : Session)
    → (save m now s).1 ≡ ok tt
    → (validate_key s.key ≡ ok tt) × ((save m now s).0 ≡ store_item m now s)
unfolding save
save_ok m now s h = elim (Result-cases (validate_key s.key)) [
  | inl (a, fine) ↦ (fine, rw (fine, save))
  | inr (e, bad) ↦ absurd (ground (arith, bad))
]

abbrev pub saved : Memory → ℕ → Session → MemoryItem
saved m now s = record { session = stamp now s; expires_at = now + m.ttl }

lookup_stored :
    (m : Memory) (now : ℕ) (s : Session)
    → Maps.lookup (key_string s.key) (store_item m now s).items ≡ some (saved m now s)
lookup_stored m now s =
    rw (lookup-insert (key_string s.key) (key_string s.key) (saved m now s) m.items, text_eq_refl)

pub load_stored :
    (m : Memory) (now later : ℕ) (s : Session)
    → (save m now s).1 ≡ ok tt
    → load (save m now s).0 later s.key ≡ read_item later (some (saved m now s))
load_stored m now later s h =
    let (fine, same) = save_ok m now s h in
    ap (λ (n : Memory). load n later s.key) same
    ∙ (load_lem (store_item m now s) later s.key fine
        ∙ ap (read_item later) (lookup_stored m now s))

-- A saved session is read back, with its time stamps set, until its lifetime has passed.
load-save :
    (m : Memory) (now later : ℕ) (s : Session)
    → (save m now s).1 ≡ ok tt
    → later < now + m.ttl
    → load (save m now s).0 later s.key ≡ ok (stamp now s)
load-save m now later s h live = load_stored m now later s h ∙ unfold expired in ground arith

load-save_expired :
    (m : Memory) (now later : ℕ) (s : Session)
    → (save m now s).1 ≡ ok tt
    → now + m.ttl ≤ later
    → load (save m now s).0 later s.key ≡ err not_found
load-save_expired m now later s h gone =
    load_stored m now later s h ∙ unfold expired in ground arith

ne→text_eq : (j k : Text) → j ≢ k → text_eq j k ≡ false
ne→text_eq j k h = ground (arith, text_eq_iff j k)

load-save_other :
    (m : Memory) (now later : ℕ) (s : Session) (k : Key)
    → key_string s.key ≢ key_string k
    → load (save m now s).0 later k ≡ load m later k
load-save_other m now later s k h = elim (Result-cases (validate_key s.key)) [
  | inl (a, fine) ↦
      let same : (save m now s).0 ≡ store_item m now s = unfold save in rw (fine, save) in
      ap (λ (n : Memory). load n later k) same
      ∙ load_same (store_item m now s) m later k (λ _. ap (read_item later) (
          lookup-insert (key_string s.key) (key_string k) (saved m now s) m.items
          ∙ if_false _ _ (ne→text_eq _ _ h)))
  | inr (e, bad) ↦
      let same : (save m now s).0 ≡ m = unfold save in rw (bad, save) in
      ap (λ (n : Memory). load n later k) same
]

load-delete :
    (m : Memory) (now later : ℕ) (k : Key)
    → validate_key k ≡ ok tt
    → load (delete m now k).0 later k ≡ err not_found
unfolding delete
load-delete m now later k h =
    load_lem (delete m now k).0 later k h
    ∙ ap (read_item later)
        (lookup-erase (key_string k) (key_string k) m.items ∙ if_true _ _ (text_eq_refl _))

load-delete_other :
    (m : Memory) (now later : ℕ) (j k : Key)
    → key_string j ≢ key_string k
    → load (delete m now j).0 later k ≡ load m later k
unfolding delete
load-delete_other m now later j k h = load_same (delete m now j).0 m later k (λ _.
    ap (read_item later)
      (lookup-erase (key_string j) (key_string k) m.items ∙ if_false _ _ (ne→text_eq _ _ h)))

-- The memory store keeps the contract of `Store`: what was saved is found for its idle lifetime and
-- not after it, what was deleted is not found, and no operation touches the other sessions.
pub memory_store-IsStore : IsStore memory_store
memory_store-IsStore = record {
  ttl = λ (m : Memory). m.ttl;
  load-save = load-save;
  load-save_expired = load-save_expired;
  load-save_other = load-save_other;
  load-delete = λ m now later k h _. load-delete m now later k h;
  load-delete_other = load-delete_other;
}
