-- ===== src/Shard/Machine/Exact.antt =====
-- internal/store/shard.go: the writes of the machine and the abstract cache.
use mini_key_value_store.Prelude.{ℕ, ◌+◌, ◌^◌, ◌≤◌, ◌<◌, none, Bytes, length, ◌≡◌, ◌↔◌, ℤ}
use mini_key_value_store.Recency.{Items}
use mini_key_value_store.Shard.{Shard}
use mini_key_value_store.Shard.Methods.{get}
use mini_key_value_store.Shard.Repr.{Limits, Repr, IsValid}
use mini_key_value_store.Shard.Ints.{int_item_size, int_item_size-eq}
use mini_key_value_store.Shard.Machine.{int_set, int_cas, int_incr}
use mini_key_value_store.Shard.Machine.Same.{int_set-eq, int_cas-eq, int_incr-eq}
use mini_key_value_store.Shard.Refine.{Refines}
use mini_key_value_store.Shard.Refine.Set.{set-Refines}
use mini_key_value_store.Shard.Refine.Updates.{cas-Refines}
use mini_key_value_store.Shard.Refine.Incr.{incr-Refines}
use mini_key_value_store.Shard.Observe.SetGet.{set_succeeds_iff}
use mini_key_value_store.Shard.Observe.Cas.{HasVersion, cas_succeeds_iff}
use mini_key_value_store.Cache

module _ (lim : Limits) (now : ℕ) (key : Bytes) (counter : ℕ) (sh : Shard) (es : Items)
    (r : Repr lim sh es) where
  -- From a shard that represents a list of items, if the item's size and the limit of the memory
  -- together are below 2^63: `set`, with the sums of the machine, leaves a shard that represents the
  -- list after the abstract `set`, with the same CAS counter and the same result, errors included.
  pub int_set-Refines :
      (value : Bytes) (ttl : ℤ)
      → length key + length value + lim.overhead + lim.max_memory < 2 ^ 63
      → Refines lim
          (int_set now key value ttl sh counter)
          (Cache.set lim now key value ttl es counter)
  int_set-Refines value ttl h =
      rw (int_set-eq lim now key value ttl counter sh es r h)
        (set-Refines lim now key value ttl counter sh es r)

  -- From a shard that represents a list of items, if the item's size and the limit of the memory
  -- together are below 2^63: `cas`, with the sums of the machine, leaves a shard that represents the
  -- list after the abstract `cas`, with the same CAS counter and the same result, errors included.
  pub int_cas-Refines :
      (value : Bytes) (ttl : ℤ) (expected : ℕ)
      → length key + length value + lim.overhead + lim.max_memory < 2 ^ 63
      → Refines lim
          (int_cas now key value ttl expected sh counter)
          (Cache.cas lim now key value ttl expected es counter)
  int_cas-Refines value ttl expected h =
      rw (int_cas-eq lim now key counter sh es r value ttl expected h)
        (cas-Refines lim now key counter sh es r value ttl expected)

  -- From a shard that represents a list of items, if the size of an item of 20 digits, the most that a
  -- number has, and the limit of the memory together are below 2^63: `incr`, with the sums of the
  -- machine, leaves a shard that represents the list after the abstract `incr`, with the same CAS
  -- counter and the same result, errors included.
  pub int_incr-Refines :
      (delta : ℕ)
      → length key + 20 + lim.overhead + lim.max_memory < 2 ^ 63
      → Refines lim (int_incr now key delta sh counter) (Cache.incr lim now key delta es counter)
  int_incr-Refines delta h =
      rw (int_incr-eq lim now key counter sh es r delta h)
        (incr-Refines lim now key counter sh es r delta)

module _ (lim : Limits) (now : ℕ) (key value : Bytes) (ttl : ℤ) (counter : ℕ) (sh : Shard)
    (valid : IsValid lim sh)
    (h : length key + length value + lim.overhead + lim.max_memory < 2 ^ 63) where
  -- On a valid shard, if the item's size and the limit of the memory together are below 2^63: `set`,
  -- with the sums of the machine, succeeds exactly when the value and the accounted item are within
  -- their limits: making room for them never fails.
  pub int_set_succeeds : ((int_set now key value ttl sh counter).2 ≡ none) ↔ (
      (length value ≤ sh.max_value_bytes)
      × (int_item_size sh key (length value) ≤ sh.max_memory_bytes))
  int_set_succeeds =
      let (es, r) = valid in
      rw
        (
          int_set-eq lim now key value ttl counter sh es r h,
          int_item_size-eq lim sh es key (length value) r h,
        )
        (set_succeeds_iff lim now key value ttl counter sh valid)

  -- On a valid shard, if the item's size and the limit of the memory together are below 2^63: `cas`,
  -- with the sums of the machine, succeeds exactly when the key reads with the expected version and
  -- the value and the accounted item are within their limits.
  pub int_cas_succeeds :
      (expected : ℕ)
      → ((int_cas now key value ttl expected sh counter).2 ≡ none) ↔ (
          (length value ≤ sh.max_value_bytes)
          × (int_item_size sh key (length value) ≤ sh.max_memory_bytes)
          × HasVersion expected (get now key sh).1)
  int_cas_succeeds expected =
      let (es, r) = valid in
      rw
        (
          int_cas-eq lim now key counter sh es r value ttl expected h,
          int_item_size-eq lim sh es key (length value) r h,
        )
        (cas_succeeds_iff lim now key value ttl expected counter sh valid)
