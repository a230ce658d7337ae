-- ===== src/Session/Memory.antt =====
-- gateway/internal/session/memory.go: the store in process memory. The clock is an argument; the
-- lock is held for each whole operation, so an execution is a sequence of operations.
pub mod Laws
pub mod Sweeps
pub mod Honest
use openussd.Prelude.{
  ℕ, ◌+◌, ◌/◌, Bool, true, false, not, Option, none, some, List, [], ◌∷◌, ltb, if◌then◌else◌,
  length, Result, ok, err, map_err, ◌>>=◌, ◌>>◌,
}
use openussd.Strings.{Text}
use openussd.Maps
use openussd.Maps.{Map}
use openussd.Session.{
  Key, key_string, validate_key, Session, stamp, default_ttl, StoreError, not_found, bad_key, Store,
}

pub record MemoryItem : Type 0 where
  pub session : Session
  pub expires_at : ℕ

pub record Memory : Type 0 where
  pub ttl : ℕ
  pub items : Map MemoryItem
  pub stopped : Bool

unfoldable pub with_ttl : ℕ → Memory → Memory
with_ttl ttl m = record m { ttl = ttl }

abbrev fresh : Memory
fresh = record { ttl = default_ttl; items = []; stopped = false }

apply_options : Memory → List (Memory → Memory) → Memory
apply_options m [] = m
apply_options m (option ∷ options) = apply_options (option m) options

unfoldable pub new_memory : List (Memory → Memory) → Memory
unfolding apply_options
new_memory options = apply_options fresh options

-- `!m.now().Before(item.expiresAt)`
unfoldable pub expired : ℕ → MemoryItem → Bool
expired now item = not (ltb now item.expires_at)

unfoldable pub load : Memory → ℕ → Key → Result StoreError Session
unfolding expired
load m now key = do
  map_err bad_key (validate_key key)
  elim (Maps.lookup (key_string key) m.items) [
    | none ↦ err not_found
    | some item ↦ if expired now item then err not_found else ok item.session
  ]

abbrev pub store_item : Memory → ℕ → Session → Memory
store_item m now s = record m {
  items =
      Maps.insert (key_string s.key) (record { session = stamp now s; expires_at = now + m.ttl })
        m.items;
}

unfoldable pub save : Memory → ℕ → Session → Memory × Result StoreError Unit
save m now s = elim (validate_key s.key) [
  | err e ↦ (m, err (bad_key e))
  | ok _ ↦ (store_item m now s, ok tt)
]

unfoldable pub delete : Memory → ℕ → Key → Memory × Result StoreError Unit
delete m now key = (record m { items = Maps.erase (key_string key) m.items }, ok tt)

-- `stopOnce` lets the first call close the channel and the later ones do nothing.
unfoldable pub close : Memory → Memory
close m = record m { stopped = true }

unfoldable pub len : Memory → ℕ
len m = length m.items

unfoldable pub evict_expired : Memory → ℕ → Memory
unfolding expired
evict_expired m now = record m { items = Maps.erase_if (expired now) m.items }

-- At least a second between sweeps.
unfoldable pub sweep_interval : ℕ → ℕ
sweep_interval ttl =
    let interval = ttl / 4 in if ltb interval 1_000_000_000 then 1_000_000_000 else interval

-- The sweeper runs at the times of its ticks until the store is closed.
unfoldable pub sweep : Memory → List ℕ → Memory
unfolding evict_expired
sweep m [] = m
sweep m (now ∷ ticks) = sweep (if m.stopped then m else evict_expired m now) ticks

abbrev pub memory_store : Store
memory_store = record { State = Memory; load = load; save = save; delete = delete }
