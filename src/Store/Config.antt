-- ===== src/Store/Config.antt =====
-- internal/store/store.go: the configuration and `New`. The clock `Now` is no field here: its
-- readings are arguments of the methods.
use native.Mathlib.Nat.{div-add-mod}
use mini_key_value_store.Prelude.{
  ℕ, zero, suc, ◌*◌, ◌/◌, ◌≤◌, ◌<◌, Bool, true, false, List, [], ◌∷◌, ℤ, pos, negsuc, if◌then◌else◌,
  ltb, arith, Bool-cases, inl, inr,
}
use mini_key_value_store.Lru
use mini_key_value_store.Shard.{Shard}
use mini_key_value_store.Store.{Store}

pub record Config : Type 0 where
  pub max_value_bytes : ℤ
  pub max_memory_bytes : ℤ
  pub item_overhead_bytes : ℤ
  pub shards : ℤ

unfoldable pub default_config : Config
default_config = record {
  max_value_bytes = pos (1024 * 1024);
  max_memory_bytes = pos (64 * 1024 * 1024);
  item_overhead_bytes = pos 64;
  shards = pos 16;
}

-- `n <= 0`, `n < 0`, and the value of an int that is not negative
abbrev pub is_nonpositive : ℤ → Bool
is_nonpositive (pos zero) = true
is_nonpositive (pos (suc n)) = false
is_nonpositive (negsuc n) = true

abbrev pub is_negative : ℤ → Bool
is_negative (pos n) = false
is_negative (negsuc n) = true

abbrev pub magnitude : ℤ → ℕ
magnitude (pos n) = n
magnitude (negsuc n) = 0

unfoldable pub normalize_config : Config → Config
unfolding default_config
normalize_config config = record {
  max_value_bytes =
      if is_nonpositive config.max_value_bytes
      then default_config.max_value_bytes
      else config.max_value_bytes;
  max_memory_bytes =
      if is_nonpositive config.max_memory_bytes
      then default_config.max_memory_bytes
      else config.max_memory_bytes;
  item_overhead_bytes =
      if is_negative config.item_overhead_bytes
      then default_config.item_overhead_bytes
      else config.item_overhead_bytes;
  shards = if is_nonpositive config.shards then default_config.shards else config.shards;
}

unfoldable pub new_shard : Config → ℕ → Shard
new_shard config per_shard_memory = record {
  items = [];
  lru = Lru.empty;
  memory_bytes = 0;
  ttl_count = 0;
  max_value_bytes = magnitude config.max_value_bytes;
  max_memory_bytes = per_shard_memory;
  item_overhead_bytes = magnitude config.item_overhead_bytes;
  evictions = 0;
  expirations = 0;
}

abbrev pub replicate {ℓ} : {A : Type ℓ} → ℕ → A → List A
replicate zero a = []
replicate (suc n) a = a ∷ replicate n a

-- Each shard's slice of the memory.
unfoldable pub per_shard_memory : Config → ℕ
per_shard_memory config =
    let slice = magnitude config.max_memory_bytes / magnitude config.shards in
    if ltb slice 1 then 1 else slice

unfoldable pub new : Config → Store
unfolding normalize_config new_shard per_shard_memory
new given =
    let config = normalize_config given in
    record {
      shards = replicate (magnitude config.shards) (new_shard config (per_shard_memory config));
      cas = 0;
    }

-- A normalized configuration has at least one shard, and limits for a value and for the memory
-- that are not zero.
pub normalize_config_positive :
    (c : Config)
    → (0 < magnitude (normalize_config c).max_value_bytes)
      × (0 < magnitude (normalize_config c).max_memory_bytes)
      × (0 < magnitude (normalize_config c).shards)
unfolding normalize_config default_config
normalize_config_positive c = (ground arith, ground arith, ground arith)

slice_budget : (m n : ℕ) → 0 < n → n ≤ m → n * (if ltb (m / n) 1 then 1 else m / n) ≤ m
slice_budget m n h l = elim (Bool-cases (ltb (m / n) 1)) [
  | inl t ↦ rw t (omega arith)
  | inr t ↦ rw t (omega (arith, div-add-mod m n))
]

-- The slices of the shards together stay within the configured memory, if there is a shard and the
-- memory has a byte for each.
pub per_shard_memory_budget :
    (c : Config)
    → 0 < magnitude c.shards
    → magnitude c.shards ≤ magnitude c.max_memory_bytes
    → magnitude c.shards * per_shard_memory c ≤ magnitude c.max_memory_bytes
unfolding per_shard_memory
per_shard_memory_budget c h l = slice_budget (magnitude c.max_memory_bytes) (magnitude c.shards) h l
