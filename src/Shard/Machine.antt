-- ===== src/Shard/Machine.antt =====
-- internal/store/shard.go: the writes with the sums of an `int` as the machine makes them. The parts
-- of a write that add up no sizes are those of Methods.
mod Rooms
pub mod Same
pub mod Exact
use mini_key_value_store.Prelude.{
  zero, suc, ◌/◌, ◌%◌, [], ◌∷◌, ℕ, ◌+◌, ◌-◌, ◌^◌, ◌≤◌, ◌<◌, Bool, true, false, not, Option, none,
  some, Option-cases, Bool-cases, inl, inr, Bytes, length, ltb, ◌==◌, if◌then◌else◌, ◌≡◌, refl, ap,
  sym, ◌∙◌, subst, arith, ℤ, ltb_false→le,
}
use mini_key_value_store.Decimal.{max_uint64, parse_uint, format_digits, format_uint}
use mini_key_value_store.Item.{
  StoredItem, StoreError, not_found, not_integer, overflow, value_too_large, memory_limit_exceeded,
  cas_mismatch, expires_at, expired, is_decimal, Result, ok, err,
}
use mini_key_value_store.Recency.{Items, find, drop, total, live}
use mini_key_value_store.Shard.{
  Shard, item_at, item_size, add_uint64, delete_locked, remove_expired_locked,
  evict_until_fits_locked,
}
use mini_key_value_store.Shard.Methods.{
  projection, size_of, evict_room, drop_stale, set_room, set_stored, set_sized, set, room_again,
  update_room, cas_write, cas_found, cas, incr_write, incr_parsed, incr_found, incr,
}
use mini_key_value_store.Shard.Repr.{Limits, Repr}
use mini_key_value_store.Shard.Sweep.{remove_expired_locked-Repr}
use mini_key_value_store.Shard.Evict.{evict_until_fits_locked-Repr}
use mini_key_value_store.Shard.Room.{projection-eq}
use mini_key_value_store.Shard.Refine.{drop_stale-Repr, item_size-eq, find-purge}
use mini_key_value_store.Cache.{view, purge}
use mini_key_value_store.Shard.Ints.{
  int_item_size-eq, int_item_size, int_less, int_projection, int_less-ltb, int_projection-eq,
  old_size-le,
}

-- The eviction that the writes share.
unfoldable pub int_evict_room : Bytes → ℕ → ℕ → Shard → Shard × ℕ × Bool
int_evict_room key size old_size sh =
    if int_less sh.max_memory_bytes (int_projection sh old_size size)
    then (let (sh', fits) = evict_until_fits_locked key (int_projection sh old_size size) sh in
        (sh', int_projection sh' old_size size, fits))
    else (sh, int_projection sh old_size size, true)

unfoldable pub int_set_room : ℕ → Bytes → ℕ → ℕ → Shard → Shard × ℕ × Bool
int_set_room now key size old_size sh =
    if int_less sh.max_memory_bytes (int_projection sh old_size size)
    then (if ltb 0 sh.ttl_count
        then (let sh' = remove_expired_locked now sh in
            int_evict_room key size (size_of (item_at sh' key)) sh')
        else int_evict_room key size old_size sh)
    else (sh, int_projection sh old_size size, true)

unfoldable pub int_set_sized :
    ℕ → Bytes → Bytes → ℤ → ℕ → ℕ → Shard → ℕ → Shard × ℕ × Option StoreError
int_set_sized now key value ttl size old_size sh counter =
    if int_less sh.max_memory_bytes size
    then (sh, counter, some memory_limit_exceeded)
    else set_stored now key value ttl size (int_set_room now key size old_size sh) counter

unfoldable pub int_set : ℕ → Bytes → Bytes → ℤ → Shard → ℕ → Shard × ℕ × Option StoreError
int_set now key value ttl sh counter =
    if ltb sh.max_value_bytes (length value)
    then (sh, counter, some value_too_large)
    else let (sh', old_size) = drop_stale now (item_at sh key) sh in
      int_set_sized now key value ttl (int_item_size sh' key (length value)) old_size sh' counter

-- The room for a new size of the item that `cas` and `incr` found.
unfoldable pub int_room_again :
    Bytes → ℕ → Option StoredItem → Shard → Shard × Result (StoredItem × ℕ)
int_room_again key size none sh = (sh, err not_found)
int_room_again key size (some item) sh =
    let (sh', projected, fits) = int_evict_room key size item.size sh in
    (sh', (if fits then ok (item, projected) else err memory_limit_exceeded))

unfoldable pub int_update_room :
    ℕ → Bytes → ℕ → StoredItem → Shard → Shard × Result (StoredItem × ℕ)
int_update_room now key size item sh =
    if int_less sh.max_memory_bytes (int_projection sh item.size size)
    then (if ltb 0 sh.ttl_count
        then (let sh' = remove_expired_locked now sh in
            int_room_again key size (item_at sh' key) sh')
        else int_room_again key size (some item) sh)
    else (sh, ok (item, int_projection sh item.size size))

unfoldable pub int_cas_found :
    ℕ → Bytes → Bytes → ℤ → ℕ → Option StoredItem → Shard → ℕ → Shard × ℕ × Option StoreError
int_cas_found now key value ttl expected none sh counter = (sh, counter, some not_found)
int_cas_found now key value ttl expected (some item) sh counter =
    if expired item now
    then (delete_locked item sh, counter, some not_found)
    else if not (item.cas == expected)
    then (sh, counter, some cas_mismatch)
    else let size = int_item_size sh key (length value) in
      if int_less sh.max_memory_bytes size
      then (sh, counter, some memory_limit_exceeded)
      else cas_write value (expires_at now ttl) size (int_update_room now key size item sh) counter

unfoldable pub int_cas : ℕ → Bytes → Bytes → ℤ → ℕ → Shard → ℕ → Shard × ℕ × Option StoreError
int_cas now key value ttl expected sh counter =
    if ltb sh.max_value_bytes (length value)
    then (sh, counter, some value_too_large)
    else int_cas_found now key value ttl expected (item_at sh key) sh counter

unfoldable pub int_incr_parsed :
    ℕ → Bytes → ℕ → Option ℕ → StoredItem → Shard → ℕ → Shard × ℕ × Result ℕ
int_incr_parsed now key delta none item sh counter = (sh, counter, err not_integer)
int_incr_parsed now key delta (some current) item sh counter =
    if ltb (max_uint64 - current) delta
    then (sh, counter, err overflow)
    else let next = add_uint64 current delta in
      let value = format_uint next in
      if ltb sh.max_value_bytes (length value)
      then (sh, counter, err value_too_large)
      else let size = int_item_size sh key (length value) in
        if int_less sh.max_memory_bytes size
        then (sh, counter, err memory_limit_exceeded)
        else incr_write next value size (int_update_room now key size item sh) counter

unfoldable pub int_incr_found : ℕ → Bytes → ℕ → Option StoredItem → Shard → ℕ → Shard × ℕ × Result ℕ
int_incr_found now key delta none sh counter = (sh, counter, err not_found)
int_incr_found now key delta (some item) sh counter =
    if expired item now
    then (delete_locked item sh, counter, err not_found)
    else if not (is_decimal item.value)
    then (sh, counter, err not_integer)
    else int_incr_parsed now key delta (parse_uint item.value) item sh counter

unfoldable pub int_incr : ℕ → Bytes → ℕ → Shard → ℕ → Shard × ℕ × Result ℕ
int_incr now key delta sh counter = int_incr_found now key delta (item_at sh key) sh counter
