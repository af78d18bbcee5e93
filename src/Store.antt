-- ===== src/Store.antt =====
-- internal/store/store.go: the sharded store. A call runs under its shard's mutex; the shards
-- share the CAS counter. `none` is Go's panic for an index out of range.
pub mod Config
pub mod Hash
pub mod Valid
pub mod Calls
pub mod Turns
pub mod Sweeps
pub mod Start
pub mod Ints
pub mod Reads
pub mod Totals
pub mod Versions
pub mod Advance
pub mod Unique
use mini_key_value_store.Prelude.{
  ℕ, zero, suc, ◌+◌, ◌*◌, ◌%◌, ◌^◌, Option, none, some, List, [], ◌∷◌, Bytes, Bool, ℤ, length, ◌++◌,
}
use Prim.Native.Nat.{bit_xor}
use mini_key_value_store.Item.{Item, StoreError, Result}
use mini_key_value_store.Shard
use mini_key_value_store.Shard.{Shard}
use mini_key_value_store.Shard.Methods

pub record Store : Type 0 where
  pub shards : List Shard
  pub cas : ℕ

-- The loop of `shardIndex`: FNV-1a over uint32.
unfoldable pub fnv1a : ℕ → Bytes → ℕ
fnv1a h [] = h
fnv1a h (b ∷ bs) = fnv1a ((bit_xor h b * 16777619) % 2 ^ 32) bs

unfoldable pub shard_index : Bytes → ℕ → ℕ
unfolding fnv1a
shard_index key n = fnv1a 2166136261 key % (n % 2 ^ 32)

-- The shard at an index, and a write back to it.
unfoldable pub at_index {ℓ} : {A : Type ℓ} → List A → ℕ → Option A
at_index [] i = none
at_index (x ∷ xs) zero = some x
at_index (x ∷ xs) (suc i) = at_index xs i

unfoldable pub set_index {ℓ} : {A : Type ℓ} → List A → ℕ → A → List A
set_index [] i y = []
set_index (x ∷ xs) zero y = y ∷ xs
set_index (x ∷ xs) (suc i) y = x ∷ set_index xs i y

-- `s.shardFor(key)`
unfoldable pub shard_for : Bytes → Store → Option Shard
shard_for key s = at_index s.shards (shard_index key (length s.shards))

-- A method of the shard of `key`, with the counter that it leaves.
unfoldable pub on_shard :
    {A : Type 0} → Bytes → (Shard → ℕ → Shard × ℕ × A) → Store → Option (Store × A)
on_shard key method s = elim (shard_for key s) [
  | none ↦ none
  | some sh ↦
      let (sh', counter, a) = method sh s.cas in
      some (
        record {
          shards = set_index s.shards (shard_index key (length s.shards)) sh';
          cas = counter;
        },
        a,
      )
]

-- `Get` and `Delete` leave the counter alone.
abbrev pub get_of : ℕ → Bytes → Shard → ℕ → Shard × ℕ × Option Item
get_of now key sh counter = let (sh', item) = Methods.get now key sh in (sh', counter, item)

abbrev pub delete_of : ℕ → Bytes → Shard → ℕ → Shard × ℕ × Bool
delete_of now key sh counter = let (sh', found) = Methods.delete now key sh in (sh', counter, found)

unfoldable pub set : ℕ → Bytes → Bytes → ℤ → Store → Option (Store × Option StoreError)
unfolding on_shard shard_for
set now key value ttl = on_shard key (Methods.set now key value ttl)

unfoldable pub get : ℕ → Bytes → Store → Option (Store × Option Item)
unfolding on_shard shard_for
get now key = on_shard key (get_of now key)

unfoldable pub delete : ℕ → Bytes → Store → Option (Store × Bool)
unfolding on_shard shard_for
delete now key = on_shard key (delete_of now key)

unfoldable pub incr : ℕ → Bytes → ℕ → Store → Option (Store × Result ℕ)
unfolding on_shard shard_for
incr now key delta = on_shard key (Methods.incr now key delta)

unfoldable pub cas : ℕ → Bytes → Bytes → ℤ → ℕ → Store → Option (Store × Option StoreError)
unfolding on_shard shard_for
cas now key value ttl expected = on_shard key (Methods.cas now key value ttl expected)

-- The loop of `CleanupExpired`: `clock i` is the reading of the clock at the shard with index `i`.
unfoldable pub cleanup_shards : (ℕ → ℕ) → ℕ → List Shard → List Shard × ℕ
cleanup_shards clock i [] = ([], 0)
cleanup_shards clock i (sh ∷ rest) =
    let (sh', n) = Shard.cleanup_expired (clock i) sh in
    let (rest', total) = cleanup_shards clock (i + 1) rest in (sh' ∷ rest', n + total)

unfoldable pub cleanup_expired : (ℕ → ℕ) → Store → Store × ℕ
unfolding cleanup_shards
cleanup_expired clock s =
    let (shards, total) = cleanup_shards clock 0 s.shards in (record s { shards = shards }, total)

unfoldable pub sum_memory : List Shard → ℕ
sum_memory [] = 0
sum_memory (sh ∷ rest) = Methods.memory_bytes_snapshot sh + sum_memory rest

unfoldable pub memory_bytes : Store → ℕ
unfolding sum_memory
memory_bytes s = sum_memory s.shards

pub record Stats : Type 0 where
  pub items : ℕ
  pub memory_bytes : ℕ
  pub max_memory_bytes : ℕ
  pub evictions : ℕ
  pub expirations : ℕ
  pub items_per_shard : List ℕ
  pub num_shards : ℕ

-- The loop of `Stats`.
unfoldable pub add_stats : List Shard → Stats → Stats
add_stats [] out = out
add_stats (sh ∷ rest) out = add_stats rest (record out {
  items = out.items + length sh.items;
  memory_bytes = out.memory_bytes + sh.memory_bytes;
  max_memory_bytes = out.max_memory_bytes + sh.max_memory_bytes;
  evictions = Shard.add_uint64 out.evictions sh.evictions;
  expirations = Shard.add_uint64 out.expirations sh.expirations;
  items_per_shard = out.items_per_shard ++ length sh.items ∷ [];
})

unfoldable pub stats : Store → Stats
unfolding add_stats
stats s = add_stats s.shards (record {
  items = 0;
  memory_bytes = 0;
  max_memory_bytes = 0;
  evictions = 0;
  expirations = 0;
  items_per_shard = [];
  num_shards = length s.shards;
})
