-- ===== src/Session/Memory/Honest.antt =====
-- gateway/internal/session/memory.go: where the sessions that are read come from.
use openussd.Prelude.{
  ℕ, ◌≡◌, sym, ◌∙◌, ap, ◌⊎◌, inl, inr, Bool, true, false, Option, none, some, if◌then◌else◌, ok,
  arith, Bool-cases, Result-cases,
}
use openussd.Strings.{text_eq}
use openussd.Maps
use openussd.Maps.Laws.{lookup-insert, lookup-erase, lookup-erase_if, kept}
use openussd.Session.{Key, key_string, validate_key, Session, stamp, IsHonest}
use openussd.Session.Memory.{
  MemoryItem, Memory, expired, load, save, delete, evict_expired, memory_store, store_item,
}
use openussd.Session.Memory.Sweeps.{IsWellFormed}
use openussd.Session.Memory.Laws.{read_item, load_lem, load_bad_key, saved}

-- A load that succeeds read an item.
pub load-eq-ok :
    (m : Memory) (later : ℕ) (k : Key) (r : Session)
    → load m later k ≡ ok r
    → (validate_key k ≡ ok tt) × (read_item later (Maps.lookup (key_string k) m.items) ≡ ok r)
load-eq-ok m later k r h = elim (Result-cases (validate_key k)) [
  | inl (a, fine) ↦ (fine, sym (load_lem m later k fine) ∙ h)
  | inr (e, bad) ↦ absurd (ground (arith, sym (load_bad_key m later k e bad) ∙ h))
]

load_again :
    (m : Memory) (later : ℕ) (k : Key) (r : Session)
    → validate_key k ≡ ok tt
    → read_item later (Maps.lookup (key_string k) m.items) ≡ ok r
    → load m later k ≡ ok r
load_again m later k r fine h = load_lem m later k fine ∙ h

read_item-eq-ok :
    (later : ℕ) (item : MemoryItem) (r : Session)
    → read_item later (some item) ≡ ok r
    → item.session ≡ r
read_item-eq-ok later item r h = ground arith

read_stored :
    (same : Bool) (later : ℕ) (item : MemoryItem) (old : Option MemoryItem) (r : Session)
    → read_item later (if same then some item else old) ≡ ok r
    → (r ≡ item.session) ⊎ (read_item later old ≡ ok r)
read_stored true later item old r h = inl (sym (read_item-eq-ok later item r h))
read_stored false later item old r h = inr h

pub load-save_known :
    (m : Memory) (now later : ℕ) (s : Session) (k : Key) (r : Session)
    → load (save m now s).0 later k ≡ ok r
    → (r ≡ stamp now s) ⊎ (load m later k ≡ ok r)
load-save_known m now later s k r h = elim (Result-cases (validate_key s.key)) [
  | inl (a, fine) ↦
      let stored : (save m now s).0 ≡ store_item m now s = unfold save in rw (fine, save) in
      let (good, read) =
        load-eq-ok (store_item m now s) later k r
          (ap (λ (n : Memory). load n later k) (sym stored) ∙ h) in
      elim (read_stored (text_eq (key_string s.key) (key_string k)) later (saved m now s)
        (Maps.lookup (key_string k) m.items) r
        (ap (read_item later)
            (sym (lookup-insert (key_string s.key) (key_string k) (saved m now s) m.items))
          ∙ read)) [ inl this ↦ inl this | inr old ↦ inr (load_again m later k r good old) ]
  | inr (e, bad) ↦
      let same : (save m now s).0 ≡ m = unfold save in rw (bad, save) in
      inr (ap (λ (n : Memory). load n later k) (sym same) ∙ h)
]

read_left :
    (same : Bool) (later : ℕ) (old : Option MemoryItem) (r : Session)
    → read_item later (if same then none else old) ≡ ok r
    → read_item later old ≡ ok r
read_left true later old r h = absurd (ground arith)
read_left false later old r h = h

pub load-delete_known :
    (m : Memory) (now later : ℕ) (j k : Key) (r : Session)
    → load (delete m now j).0 later k ≡ ok r
    → load m later k ≡ ok r
unfolding delete
load-delete_known m now later j k r h =
    let (good, read) = load-eq-ok (delete m now j).0 later k r h in
    load_again m later k r good (
      read_left (text_eq (key_string j) (key_string k)) later (Maps.lookup (key_string k) m.items) r
        (ap (read_item later) (sym (lookup-erase (key_string j) (key_string k) m.items)) ∙ read))

read_kept :
    (drop : MemoryItem → Bool) (later : ℕ) (old : Option MemoryItem) (r : Session)
    → read_item later (kept drop old) ≡ ok r
    → read_item later old ≡ ok r
read_kept drop later none r h = h
read_kept drop later (some item) r h = elim (Bool-cases (drop item)) [
  | inl gone ↦ absurd (ground (arith, rw gone at h))
  | inr stays ↦ rw stays at h
]

-- A sweep adds no session.
pub load-evict_expired_known :
    (m : Memory) (now later : ℕ) (k : Key) (r : Session)
    → IsWellFormed m
    → load (evict_expired m now) later k ≡ ok r
    → load m later k ≡ ok r
unfolding evict_expired
load-evict_expired_known m now later k r wf h =
    let (good, read) = load-eq-ok (evict_expired m now) later k r h in
    load_again m later k r good (
      read_kept (expired now) later (Maps.lookup (key_string k) m.items) r (
        ap (read_item later) (sym (lookup-erase_if (expired now) (key_string k) m.items wf))
        ∙ read))

-- The memory store returns only sessions that were saved, as they were stamped, and deleting adds none.
abbrev pub memory_honesty : IsHonest memory_store
memory_honesty = record {
  has = λ m later k r. load m later k ≡ ok r;
  recode = λ state. state;
  has-load = λ m later k r h. h;
  has-save = load-save_known;
  has-delete = load-delete_known;
}
