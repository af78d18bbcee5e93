-- ===== src/Store/Start.antt =====
-- internal/store/store.go: `New`, and sequences of calls of the store that it builds.
use mini_key_value_store.Prelude.{
  ℕ, zero, suc, ◌*◌, ◌≤◌, ◌<◌, ◌^◌, some, List, [], length, All, ◌≡◌, refl, ap, arith,
}
use mini_key_value_store.Table
use mini_key_value_store.Recency.{total, timed, find}
use mini_key_value_store.Shard.Repr.{Limits, Repr}
use mini_key_value_store.Store.{Store, memory_bytes}
use mini_key_value_store.Store.Config.{
  Config, magnitude, replicate, normalize_config, normalize_config_positive, new_shard,
  per_shard_memory, per_shard_memory_budget, new,
}
use mini_key_value_store.Store.Valid.{ShardValid, IsValid, sum_memory-le}
use mini_key_value_store.Store.Calls.{Call, run, run-IsValid}

length-replicate : {A : Type 0} (n : ℕ) (a : A) → length (replicate n a) ≡ n
length-replicate zero a = refl
length-replicate (suc n) a = ap suc (length-replicate n a)

pub All-replicate : {A : Type 0} (P : A → Type 0) (n : ℕ) (a : A) → P a → All P (replicate n a)
All-replicate P zero a p = tt
All-replicate P (suc n) a p = (p, All-replicate P n a p)

-- The limits of a shard of a normalized configuration.
abbrev pub limits_of : Config → Limits
limits_of config = record {
  max_value = magnitude config.max_value_bytes;
  max_memory = per_shard_memory config;
  overhead = magnitude config.item_overhead_bytes;
}

-- A new shard holds nothing.
pub new_shard-Repr :
    (config : Config) (memory : ℕ)
    → Repr
        (record {
          max_value = magnitude config.max_value_bytes;
          max_memory = memory;
          overhead = magnitude config.item_overhead_bytes;
        })
        (new_shard config memory)
        []
unfolding new_shard Table.lookup total timed find
new_shard-Repr config memory = record {
  chain = record { head = refl; tail = refl; seg = tt; distinct = tt };
  found = λ k. refl;
  unique = tt;
  count = refl;
  memory = refl;
  ttl = refl;
  legal = tt;
  fits = omega arith;
  value_limit = refl;
  memory_limit = refl;
  overhead = refl;
}

module _ (given : Config) where
  abbrev pub config : Config
  config = normalize_config given

  pub new-IsValid :
      magnitude config.shards < 2 ^ 32
      → IsValid (limits_of config) (magnitude config.shards) (new given)
  unfolding new
  new-IsValid few = record {
    count = length-replicate (magnitude config.shards) (new_shard config (per_shard_memory config));
    some_shard = (normalize_config_positive given).2;
    few = few;
    each =
        All-replicate (ShardValid (limits_of config)) (magnitude config.shards) _
          ([], new_shard-Repr config (per_shard_memory config));
  }

  -- The accounted memory of a valid store.
  pub memory_bytes-IsValid :
      (s : Store)
      → IsValid (limits_of config) (magnitude config.shards) s
      → magnitude config.shards ≤ magnitude config.max_memory_bytes
      → memory_bytes s ≤ magnitude config.max_memory_bytes
  unfolding memory_bytes
  memory_bytes-IsValid s v room =
      let lim = limits_of config in
      let budget = per_shard_memory_budget config (normalize_config_positive given).2 room in
      let sum = sum_memory-le lim s.shards v.each in
      omega (arith, budget, sum, v.count, ap (λ (n : ℕ). n * lim.max_memory) v.count)

  -- Whatever calls follow `New`, none of them panics, if the normalized configuration has fewer
  -- than 2^32 shards and at most one for each byte of its memory; and the accounted memory stays
  -- within that memory.
  pub run-new :
      (calls : List Call)
      → magnitude config.shards < 2 ^ 32
      → magnitude config.shards ≤ magnitude config.max_memory_bytes
      → (s : Store) × (run calls (new given) ≡ some s)
        × (memory_bytes s ≤ magnitude config.max_memory_bytes)
  run-new calls few room =
      let lim = limits_of config in
      let (s, e, v) =
        run-IsValid lim (magnitude config.shards) calls (new given) (new-IsValid few) in
      (s, e, memory_bytes-IsValid s v room)
