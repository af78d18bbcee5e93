-- ===== src/Store/Sweeps.antt =====
-- internal/store/store.go: the loop of `CleanupExpired` beside other calls.
use mini_key_value_store.Prelude.{ℕ, ◌+◌}
use mini_key_value_store.Shard
use mini_key_value_store.Shard.{Shard, add_uint64}
use mini_key_value_store.Shard.Repr.{Limits}
use mini_key_value_store.Shard.Sweep.{cleanup_expired-Repr}
use mini_key_value_store.Store.Valid.{ShardValid}
use mini_key_value_store.Store.Turns.{Loop}

-- The body of the loop.
unfoldable pub cleanup_turn : ℕ → Shard → ℕ → Shard × ℕ
cleanup_turn now sh removed = let (sh', n) = Shard.cleanup_expired now sh in (sh', removed + n)

abbrev pub begin : {R : Type 0} → R → Loop R
begin r = record { next = 0; found = r }

-- A turn of `CleanupExpired` keeps the invariant.
pub cleanup_turn-ShardValid :
    (lim : Limits) (now : ℕ) (sh : Shard) (r : ℕ)
    → ShardValid lim sh
    → ShardValid lim (cleanup_turn now sh r).0
unfolding cleanup_turn
cleanup_turn-ShardValid lim now sh r (es, w) = (_, (cleanup_expired-Repr lim now sh es w).0)
