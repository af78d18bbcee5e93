-- ===== src/Store/Hash.antt =====
-- internal/store/store.go: the range of `shardIndex`.
use mini_key_value_store.Prelude.{ℕ, ◌^◌, ◌<◌, Bytes, arith}
use native.Mathlib.Nat.{mod-lt, mod-eq_of_lt}
use mini_key_value_store.Store.{shard_index}

-- For at least one and fewer than 2^32 shards, the index of any key is that of a shard.
pub shard_index-lt : (key : Bytes) (n : ℕ) → 0 < n → n < 2 ^ 32 → shard_index key n < n
unfolding shard_index
shard_index-lt key n h l = grind (arith, mod-lt, mod-eq_of_lt)
