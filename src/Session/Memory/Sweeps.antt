-- ===== src/Session/Memory/Sweeps.antt =====
-- gateway/internal/session/memory.go: the sweeper, and the keys of the map.
use openussd.Prelude.{
  ℕ, ◌≤◌, ◌≡◌, refl, ◌∙◌, ap, Bool, true, false, Option, none, some, List, [], ◌∷◌, if◌then◌else◌,
  All, arith, inl, inr, Bool-cases, Result-cases,
}
use openussd.Maps
use openussd.Maps.{Map, HasDistinctKeys}
use openussd.Maps.Laws.{
  lookup-erase_if, kept, insert-HasDistinctKeys, erase-HasDistinctKeys, erase_if-HasDistinctKeys,
}
use openussd.Session.{Key, key_string, validate_key, Session}
use openussd.Session.Memory.{MemoryItem, Memory, expired, load, save, delete, evict_expired, sweep}
use openussd.Session.Memory.Laws.{read_item, load_same, saved}

-- The keys of the map are distinct.
abbrev pub IsWellFormed : Memory → Type 0
IsWellFormed m = HasDistinctKeys m.items

expired_mono :
    (now later : ℕ) (item : MemoryItem)
    → now ≤ later
    → expired now item ≡ true
    → expired later item ≡ true
unfolding expired
expired_mono now later item h e = ground arith

read_kept :
    (now later : ℕ) (o : Option MemoryItem)
    → now ≤ later
    → read_item later (kept (expired now) o) ≡ read_item later o
read_kept now later none h = refl
read_kept now later (some item) h = elim (Bool-cases (expired now item)) [
  | inl gone ↦ rw (gone, expired_mono now later item h gone)
  | inr live ↦ rw live
]

pub load-evict_expired :
    (m : Memory) (now later : ℕ) (k : Key)
    → IsWellFormed m
    → now ≤ later
    → load (evict_expired m now) later k ≡ load m later k
unfolding evict_expired
load-evict_expired m now later k wf h = load_same (evict_expired m now) m later k (λ _.
    ap (read_item later) (lookup-erase_if (expired now) (key_string k) m.items wf)
    ∙ read_kept now later (Maps.lookup (key_string k) m.items) h)

pub evict_expired-IsWellFormed :
    (m : Memory) (now : ℕ) → IsWellFormed m → IsWellFormed (evict_expired m now)
unfolding evict_expired
evict_expired-IsWellFormed m now wf = erase_if-HasDistinctKeys (expired now) m.items wf

pub save-IsWellFormed :
    (m : Memory) (now : ℕ) (s : Session) → IsWellFormed m → IsWellFormed (save m now s).0
unfolding save
save-IsWellFormed m now s wf = elim (Result-cases (validate_key s.key)) [
  | inl (a, fine) ↦
      rw (fine, save) (insert-HasDistinctKeys (key_string s.key) (saved m now s) m.items wf)
  | inr (e, bad) ↦ rw (bad, save) wf
]

pub delete-IsWellFormed :
    (m : Memory) (now : ℕ) (k : Key) → IsWellFormed m → IsWellFormed (delete m now k).0
unfolding delete
delete-IsWellFormed m now k wf = erase-HasDistinctKeys (key_string k) m.items wf

-- Every operation that changes the map keeps its keys distinct.
pub operations-IsWellFormed :
    (m : Memory) (now : ℕ) (s : Session) (k : Key)
    → IsWellFormed m
    → IsWellFormed (save m now s).0
      × IsWellFormed (delete m now k).0
      × IsWellFormed (evict_expired m now)
operations-IsWellFormed m now s k wf = (
  save-IsWellFormed m now s wf,
  delete-IsWellFormed m now k wf,
  evict_expired-IsWellFormed m now wf,
)

abbrev tick : Bool → Memory → ℕ → Memory
tick closed m now = if closed then m else evict_expired m now

load-tick :
    (closed : Bool) (m : Memory) (now later : ℕ) (k : Key)
    → IsWellFormed m
    → now ≤ later
    → load (tick closed m now) later k ≡ load m later k
load-tick true m now later k wf h = refl
load-tick false m now later k wf h = load-evict_expired m now later k wf h

tick-IsWellFormed :
    (closed : Bool) (m : Memory) (now : ℕ) → IsWellFormed m → IsWellFormed (tick closed m now)
tick-IsWellFormed true m now wf = wf
tick-IsWellFormed false m now wf = evict_expired-IsWellFormed m now wf

-- However often the sweeper has run before a moment, what is read then is what would be read had
-- it not run. The keys of the store are distinct.
load-sweep :
    (m : Memory) (ticks : List ℕ) (later : ℕ) (k : Key)
    → IsWellFormed m
    → All (λ now. now ≤ later) ticks
    → load (sweep m ticks) later k ≡ load m later k
unfolding sweep
load-sweep m [] later k wf h = refl
load-sweep m (now ∷ ticks) later k wf h =
    load-sweep (tick m.stopped m now) ticks later k (tick-IsWellFormed m.stopped m now wf) h.1
    ∙ load-tick m.stopped m now later k wf h.0
