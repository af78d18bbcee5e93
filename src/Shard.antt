-- ===== src/Shard.antt =====
-- internal/store/shard.go: one shard of the store. Each method runs under the shard's mutex, so it
-- is one step from state to state. `now` is the one reading of the clock that the method makes,
-- and `counter` the store's CAS counter, which the shards share.
pub mod Methods
pub mod Repr
pub mod Sweep
mod Walk
pub mod Evict
pub mod Write
pub mod Room
pub mod Refine
pub mod Observe
pub mod Ints
pub mod Machine
use mini_key_value_store.Prelude.{
  ℕ, zero, suc, ◌+◌, ◌-◌, ◌%◌, ◌^◌, Bool, true, false, not, ◌&&◌, Option, none, some, List, [], ◌∷◌,
  Bytes, bytes_discrete, ite, ltb, ◌==◌, if◌then◌else◌, length, ℤ,
}
use mini_key_value_store.Lru
use mini_key_value_store.Lru.{LruList}
use mini_key_value_store.Table
use mini_key_value_store.Table.{Table}
use mini_key_value_store.Decimal.{max_uint64, parse_uint, format_uint}
use mini_key_value_store.Item.{
  StoredItem, Item, StoreError, not_found, not_integer, overflow, value_too_large,
  memory_limit_exceeded, cas_mismatch, is_zero, expires_at, expired, is_decimal,
}

pub record Shard : Type 0 where
  pub items : Table Bytes StoredItem
  pub lru : LruList Bytes
  pub memory_bytes : ℕ
  pub ttl_count : ℕ
  pub max_value_bytes : ℕ
  pub max_memory_bytes : ℕ
  pub item_overhead_bytes : ℕ
  pub evictions : ℕ
  pub expirations : ℕ

-- `sh.items[key]`
abbrev pub item_at : Shard → Bytes → Option StoredItem
item_at sh key = Table.lookup bytes_discrete key sh.items

-- `Add` on an `atomic.Uint64`
abbrev pub add_uint64 : ℕ → ℕ → ℕ
add_uint64 c n = (c + n) % 2 ^ 64

-- The exact sum, which is that of the `int` while it is below 2^63.
unfoldable pub item_size : Shard → Bytes → ℕ → ℕ
item_size sh key value_bytes = length key + value_bytes + sh.item_overhead_bytes

unfoldable pub delete_locked : StoredItem → Shard → Shard
delete_locked item sh = record sh {
  items = Table.delete bytes_discrete item.key sh.items;
  lru = Lru.remove bytes_discrete sh.lru item.key;
  memory_bytes = sh.memory_bytes - item.size;
  ttl_count = if is_zero item.expires_at then sh.ttl_count else sh.ttl_count - 1;
}

-- The loop of `removeExpiredLocked` and `cleanupExpired` over the items: what it leaves, and
-- `removed`.
unfoldable pub sweep : ℕ → Table Bytes StoredItem → ℕ → Shard → Shard × ℕ
sweep now [] removed sh = (sh, removed)
sweep now ((_, item) ∷ rest) removed sh = elim (expired item now) [
  | true ↦ sweep now rest (removed + 1) (delete_locked item sh)
  | false ↦ sweep now rest removed sh
]

unfoldable pub count_expirations : ℕ → Shard → Shard
count_expirations removed sh =
    if ltb 0 removed then record sh { expirations = add_uint64 sh.expirations removed } else sh

unfoldable pub cleanup_expired : ℕ → Shard → Shard × ℕ
cleanup_expired now sh =
    let (sh', removed) = sweep now sh.items 0 sh in (count_expirations removed sh', removed)

unfoldable pub remove_expired_locked : ℕ → Shard → Shard
remove_expired_locked now sh =
    let (sh', removed) = sweep now sh.items 0 sh in count_expirations removed sh'

-- `for candidate != nil && candidate.key == protectedKey { candidate = candidate.prev }`
unfoldable pub walk_back : ℕ → LruList Bytes → Bytes → Option Bytes → Option Bytes
walk_back zero l protected candidate = none
walk_back (suc fuel) l protected none = none
walk_back (suc fuel) l protected (some c) = elim (bytes_discrete c protected) [
  | yes _ ↦ walk_back fuel l protected (l.links c).prev
  | no _ ↦ some c
]

-- The item to evict. Nothing but the protected item is passed over, so the walk makes at most two
-- steps.
unfoldable pub candidate : Shard → Bytes → Option StoredItem
candidate sh protected = elim (walk_back (length sh.items + 1) sh.lru protected (Lru.back sh.lru)) [
  | none ↦ none
  | some c ↦ item_at sh c
]

-- The loop of `evictUntilFitsLocked`: the shard that it leaves, `evicted`, and the result.
unfoldable pub evict_loop : ℕ → Bytes → ℕ → ℕ → Shard → Shard × ℕ × Bool
evict_loop zero protected projected evicted sh = (sh, evicted, false)
evict_loop (suc fuel) protected projected evicted sh = elim (ltb sh.max_memory_bytes projected) [
  | false ↦ (sh, evicted, true)
  | true ↦ elim (candidate sh protected) [
    | none ↦ (sh, evicted, false)
    | some item ↦
        evict_loop fuel protected (projected - item.size) (evicted + 1) (delete_locked item sh)
  ]
]

unfoldable pub count_evictions : ℕ → Shard → Shard
count_evictions evicted sh =
    if ltb 0 evicted then record sh { evictions = add_uint64 sh.evictions evicted } else sh

-- A round evicts an item, so the number of items bounds the rounds.
unfoldable pub evict_until_fits_locked : Bytes → ℕ → Shard → Shard × Bool
evict_until_fits_locked protected projected sh =
    let (sh', evicted, fits) = evict_loop (length sh.items + 1) protected projected 0 sh in
    (count_evictions evicted sh', fits)
