-- ===== src/Tests/Stores.antt =====
-- Examples of the sharded store, and runs of its hash and configuration.
use mini_key_value_store.Prelude.{
  All, map, Bytes, List, [], ◌∷◌, ◌+◌, ◌*◌, ◌≤◌, ◌<◌, ◌^◌, none, some, pos, negsuc, Option, ◌≡◌,
  ◌⊎◌, inl, refl, arith, length,
}
use mini_key_value_store.Item.{StoreError, StoredItem, expires_at}
use mini_key_value_store.Table
use mini_key_value_store.Shard.{add_uint64, item_size}
use mini_key_value_store.Shard.Methods
use mini_key_value_store.Store.{
  Store, at_index, set_index, on_shard, shard_for, shard_index, fnv1a, set, get, memory_bytes,
  stats,
}
use mini_key_value_store.Store.Ints.{IsModest, AllExact, run_in_range}
use mini_key_value_store.Store.Config.{
  per_shard_memory, normalize_config, default_config, magnitude, per_shard_memory, new, new_shard,
}
use mini_key_value_store.Store.Valid.{IsValid}
use mini_key_value_store.Store.Calls.{Call, set_call, get_call, cleanup_call, incr_call, run}
use mini_key_value_store.Store.Start.{limits_of, new-IsValid}
use mini_key_value_store.Store.Reads.{reply, get-set_store, get-set_store_other}
use mini_key_value_store.Store.Versions.{held}
use mini_key_value_store.Store.Unique.{run-versions}
use mini_key_value_store.Store.Totals.{sum, stats_totals}
use mini_key_value_store.Tests.{small, key_a, key_b, nineteen, text}

-- FNV-1a of `a` is 0xe40c292c.
hash_a : shard_index key_a 16 ≡ 12
unfolding shard_index fnv1a
hash_a = refl

defaults :
    normalize_config (record {
      max_value_bytes = pos 0;
      max_memory_bytes = negsuc 4;
      item_overhead_bytes = negsuc 0;
      shards = pos 0;
    })
    ≡ default_config
unfolding normalize_config default_config
defaults = refl

abbrev calls : List Call
calls =
    set_call 1 key_a nineteen (pos 0)
    ∷ incr_call 2 key_a 3
    ∷ set_call 2 key_b text (pos 5)
    ∷ cleanup_call (λ i. 7 + i)
    ∷ get_call 9 key_a
    ∷ []

few : magnitude (normalize_config small).shards < 2 ^ 32
unfolding normalize_config default_config
few = omega arith

enough :
    magnitude (normalize_config small).shards ≤ magnitude (normalize_config small).max_memory_bytes
unfolding normalize_config default_config
enough = omega arith

modest : All (IsModest (limits_of (normalize_config small))) calls
unfolding normalize_config default_config per_shard_memory
modest = (omega arith, (omega arith, (omega arith, (tt, (tt, tt)))))

pub new_small-IsValid :
    IsValid
      (limits_of (normalize_config small))
      (magnitude (normalize_config small).shards)
      (new small)
new_small-IsValid = new-IsValid small few

run_in_range_example :
    AllExact calls (new small)
    × (s : Store) × (run calls (new small) ≡ some s)
    × (memory_bytes s ≤ magnitude (normalize_config small).max_memory_bytes)
run_in_range_example = run_in_range small calls few enough modest

stats_totals_example :
    ((stats (new small)).memory_bytes ≡ memory_bytes (new small))
    × ((stats (new small)).max_memory_bytes
        ≡ magnitude (normalize_config small).shards
          * (limits_of (normalize_config small)).max_memory)
    × ((stats (new small)).memory_bytes ≤ (stats (new small)).max_memory_bytes)
    × ((stats (new small)).items ≡ sum (stats (new small)).items_per_shard)
    × ((stats (new small)).items_per_shard ≡ map (λ sh. length sh.items) (new small).shards)
    × (length (stats (new small)).items_per_shard ≡ magnitude (normalize_config small).shards)
    × ((stats (new small)).num_shards ≡ magnitude (normalize_config small).shards)
stats_totals_example =
    stats_totals (limits_of (normalize_config small)) (magnitude (normalize_config small).shards)
      (new small) new_small-IsValid

-- The new store once `a` is set in it.
abbrev after : Option (Store × Option StoreError) → Store
after none = new small
after (some (s', _)) = s'

abbrev stored : Store
stored = after (set 1 key_a nineteen (pos 0) (new small))

set_stored : set 1 key_a nineteen (pos 0) (new small) ≡ some (stored, none)
unfolding new set shard_index fnv1a on_shard shard_for at_index set_index normalize_config
    default_config per_shard_memory new_shard Methods.set Methods.drop_stale Table.lookup item_size
    Methods.set_room
set_stored = refl

get-set_store_example :
    reply (get 9 key_a stored) ≡ some (some (record { value = nineteen; cas = add_uint64 0 1 }))
unfolding new expires_at
get-set_store_example =
    get-set_store (limits_of (normalize_config small)) (magnitude (normalize_config small).shards) 1
      key_a nineteen (pos 0) (new small) stored new_small-IsValid 9 set_stored (inl refl)

get-set_store_other_example :
    ((reply (get 9 key_b stored) ≡ some none)
      × (shard_index key_b (length (new small).shards)
          ≡ shard_index key_a (length (new small).shards)))
    ⊎ (reply (get 9 key_b stored) ≡ reply (get 9 key_b (new small)))
get-set_store_other_example =
    get-set_store_other (limits_of (normalize_config small))
      (magnitude (normalize_config small).shards) 1 key_a nineteen (pos 0) (new small) stored
      new_small-IsValid 9 key_b set_stored (λ e. grind (arith, e))

few_calls : length calls < 2 ^ 64
few_calls = omega arith

run-versions_example :
    (s : Store) × (run calls (new small) ≡ some s)
    × ((k : Bytes) (e : StoredItem) → held k s ≡ some e → e.cas ≤ s.cas)
    × ((k j : Bytes) (e f : StoredItem)
        → held k s ≡ some e
        → held j s ≡ some f
        → e.cas ≡ f.cas
        → k ≡ j)
run-versions_example = run-versions small calls few few_calls
