-- ===== src/Shard/Methods.antt =====
-- internal/store/shard.go: the methods that the store calls. A method returns the shard, the CAS
-- counter and its result; an `error` is `none` where the source returns nil.
use mini_key_value_store.Prelude.{
  ℕ, ◌+◌, ◌-◌, Bool, true, false, not, ◌&&◌, Option, none, some, Bytes, bytes_discrete, ltb, ◌==◌,
  if◌then◌else◌, length, ℤ,
}
use mini_key_value_store.Lru
use mini_key_value_store.Table
use mini_key_value_store.Decimal.{max_uint64, parse_uint, format_uint}
use mini_key_value_store.Item.{
  StoredItem, Item, StoreError, not_found, not_integer, overflow, value_too_large,
  memory_limit_exceeded, cas_mismatch, is_zero, expires_at, expired, is_decimal, Result, ok, err,
}
use mini_key_value_store.Shard.{
  Shard, item_at, add_uint64, item_size, delete_locked, remove_expired_locked,
  evict_until_fits_locked,
}

-- `sh.memoryBytes - oldSize + size`, the exact sum, which is that of the `int` while no part of it is
-- 2^63 or more.
abbrev pub projection : Shard → ℕ → ℕ → ℕ
projection sh old_size size = sh.memory_bytes - old_size + size

-- The eviction that the writes share, with the memory projected after it, and whether it fits.
unfoldable pub evict_room : Bytes → ℕ → ℕ → Shard → Shard × ℕ × Bool
evict_room key size old_size sh =
    if ltb sh.max_memory_bytes (projection sh old_size size)
    then (let (sh', fits) = evict_until_fits_locked key (projection sh old_size size) sh in
        (sh', projection sh' old_size size, fits))
    else (sh, projection sh old_size size, true)

-- The size of the item in place.
abbrev pub size_of : Option StoredItem → ℕ
size_of none = 0
size_of (some item) = item.size

-- An expired item under the key is deleted, and the size of a live one is counted as free.
unfoldable pub drop_stale : ℕ → Option StoredItem → Shard → Shard × ℕ
drop_stale now none sh = (sh, 0)
drop_stale now (some old) sh = if expired old now then (delete_locked old sh, 0) else (sh, old.size)

-- `set` removes expired items if the write does not fit, then evicts.
unfoldable pub set_room : ℕ → Bytes → ℕ → ℕ → Shard → Shard × ℕ × Bool
set_room now key size old_size sh =
    if ltb sh.max_memory_bytes (projection sh old_size size)
    then (if ltb 0 sh.ttl_count
        then (let sh' = remove_expired_locked now sh in
            evict_room key size (size_of (item_at sh' key)) sh')
        else evict_room key size old_size sh)
    else (sh, projection sh old_size size, true)

-- `ttlCount` after an item that had an expiry or none is given `expiry`.
abbrev pub retimed : ℕ → ℕ → ℕ → ℕ
retimed old expiry n =
    if not (is_zero old) && is_zero expiry
    then n - 1
    else if is_zero old && not (is_zero expiry)
    then n + 1
    else n

-- The writes to an item in place.
unfoldable pub rewrite : StoredItem → Bytes → ℕ → ℕ → ℕ → ℕ → Shard → Shard
rewrite existing value expiry size cas projected sh = record sh {
  items =
      Table.put bytes_discrete existing.key
        (record existing { value = value; expires_at = expiry; size = size; cas = cas }) sh.items;
  lru = Lru.move_to_front bytes_discrete sh.lru existing.key;
  ttl_count = retimed existing.expires_at expiry sh.ttl_count;
  memory_bytes = projected;
}

-- A new item.
unfoldable pub insert : Bytes → Bytes → ℕ → ℕ → ℕ → ℕ → Shard → Shard
insert key value expiry size cas projected sh = record sh {
  items =
      Table.put bytes_discrete key
        (record { key = key; value = value; expires_at = expiry; size = size; cas = cas }) sh.items;
  lru = Lru.push_front bytes_discrete sh.lru key;
  ttl_count = if is_zero expiry then sh.ttl_count else sh.ttl_count + 1;
  memory_bytes = projected;
}

unfoldable pub store_item : Option StoredItem → Bytes → Bytes → ℕ → ℕ → ℕ → ℕ → Shard → Shard
store_item (some existing) key value expiry size cas projected sh =
    rewrite existing value expiry size cas projected sh
store_item none key value expiry size cas projected sh =
    insert key value expiry size cas projected sh

-- The end of `set`: the write, if there is room.
unfoldable pub set_stored :
    ℕ → Bytes → Bytes → ℤ → ℕ → Shard × ℕ × Bool → ℕ → Shard × ℕ × Option StoreError
set_stored now key value ttl size (sh, projected, fits) counter =
    let expiry = expires_at now ttl in
    let new_cas = add_uint64 counter 1 in
    if fits
    then (store_item (item_at sh key) key value expiry size new_cas projected sh, new_cas, none)
    else (sh, counter, some memory_limit_exceeded)

unfoldable pub set_sized : ℕ → Bytes → Bytes → ℤ → ℕ → ℕ → Shard → ℕ → Shard × ℕ × Option StoreError
set_sized now key value ttl size old_size sh counter =
    if ltb sh.max_memory_bytes size
    then (sh, counter, some memory_limit_exceeded)
    else set_stored now key value ttl size (set_room now key size old_size sh) counter

unfoldable pub set : ℕ → Bytes → Bytes → ℤ → Shard → ℕ → Shard × ℕ × Option StoreError
unfolding set_sized set_stored
set now key value ttl sh counter =
    if ltb sh.max_value_bytes (length value)
    then (sh, counter, some value_too_large)
    else let (sh', old_size) = drop_stale now (item_at sh key) sh in
      set_sized now key value ttl (item_size sh' key (length value)) old_size sh' counter

-- `cloneBytes`: a copy, so the bytes themselves.
abbrev pub clone_bytes : Bytes → Bytes
clone_bytes value = value

unfoldable pub get_found : ℕ → Option StoredItem → Shard → Shard × Option Item
get_found now none sh = (sh, none)
get_found now (some item) sh = if expired item now then (delete_locked item sh, none) else (
  record sh { lru = Lru.move_to_front bytes_discrete sh.lru item.key },
  some (record { value = clone_bytes item.value; cas = item.cas }),
)

unfoldable pub get : ℕ → Bytes → Shard → Shard × Option Item
unfolding get_found
get now key sh = get_found now (item_at sh key) sh

unfoldable pub delete_found : ℕ → Option StoredItem → Shard → Shard × Bool
delete_found now none sh = (sh, false)
delete_found now (some item) sh =
    if expired item now then (delete_locked item sh, false) else (delete_locked item sh, true)

unfoldable pub delete : ℕ → Bytes → Shard → Shard × Bool
unfolding delete_found
delete now key sh = delete_found now (item_at sh key) sh

-- `cas` and `incr` make room for a new size of the item that they found. They look the item up
-- again after the removal of expired items.
unfoldable pub room_again : Bytes → ℕ → Option StoredItem → Shard → Shard × Result (StoredItem × ℕ)
room_again key size none sh = (sh, err not_found)
room_again key size (some item) sh =
    let (sh', projected, fits) = evict_room key size item.size sh in
    (sh', (if fits then ok (item, projected) else err memory_limit_exceeded))

unfoldable pub update_room : ℕ → Bytes → ℕ → StoredItem → Shard → Shard × Result (StoredItem × ℕ)
unfolding room_again
update_room now key size item sh =
    if ltb sh.max_memory_bytes (projection sh item.size size)
    then (if ltb 0 sh.ttl_count
        then (let sh' = remove_expired_locked now sh in room_again key size (item_at sh' key) sh')
        else room_again key size (some item) sh)
    else (sh, ok (item, projection sh item.size size))

unfoldable pub cas_write :
    Bytes → ℕ → ℕ → Shard × Result (StoredItem × ℕ) → ℕ → Shard × ℕ × Option StoreError
cas_write value expiry size (sh, err e) counter = (sh, counter, some e)
cas_write value expiry size (sh, ok (item, projected)) counter =
    let counter' = add_uint64 counter 1 in
    (rewrite item value expiry size counter' projected sh, counter', none)

unfoldable pub cas_found :
    ℕ → Bytes → Bytes → ℤ → ℕ → Option StoredItem → Shard → ℕ → Shard × ℕ × Option StoreError
unfolding cas_write
cas_found now key value ttl expected none sh counter = (sh, counter, some not_found)
cas_found now key value ttl expected (some item) sh counter =
    if expired item now
    then (delete_locked item sh, counter, some not_found)
    else if not (item.cas == expected)
    then (sh, counter, some cas_mismatch)
    else let size = item_size sh key (length value) in
      if ltb sh.max_memory_bytes size
      then (sh, counter, some memory_limit_exceeded)
      else cas_write value (expires_at now ttl) size (update_room now key size item sh) counter

unfoldable pub cas : ℕ → Bytes → Bytes → ℤ → ℕ → Shard → ℕ → Shard × ℕ × Option StoreError
unfolding cas_found
cas now key value ttl expected sh counter =
    if ltb sh.max_value_bytes (length value)
    then (sh, counter, some value_too_large)
    else cas_found now key value ttl expected (item_at sh key) sh counter

unfoldable pub incr_write :
    ℕ → Bytes → ℕ → Shard × Result (StoredItem × ℕ) → ℕ → Shard × ℕ × Result ℕ
incr_write next value size (sh, err e) counter = (sh, counter, err e)
incr_write next value size (sh, ok (item, projected)) counter =
    let counter' = add_uint64 counter 1 in
    (rewrite item value item.expires_at size counter' projected sh, counter', ok next)

unfoldable pub incr_parsed :
    ℕ → Bytes → ℕ → Option ℕ → StoredItem → Shard → ℕ → Shard × ℕ × Result ℕ
unfolding incr_write
incr_parsed now key delta none item sh counter = (sh, counter, err not_integer)
incr_parsed now key delta (some current) item sh counter =
    if ltb (max_uint64 - current) delta
    then (sh, counter, err overflow)
    else let next = add_uint64 current delta in
      let value = format_uint next in
      if ltb sh.max_value_bytes (length value)
      then (sh, counter, err value_too_large)
      else let size = item_size sh key (length value) in
        if ltb sh.max_memory_bytes size
        then (sh, counter, err memory_limit_exceeded)
        else incr_write next value size (update_room now key size item sh) counter

unfoldable pub incr_found : ℕ → Bytes → ℕ → Option StoredItem → Shard → ℕ → Shard × ℕ × Result ℕ
unfolding incr_parsed
incr_found now key delta none sh counter = (sh, counter, err not_found)
incr_found now key delta (some item) sh counter =
    if expired item now
    then (delete_locked item sh, counter, err not_found)
    else if not (is_decimal item.value)
    then (sh, counter, err not_integer)
    else incr_parsed now key delta (parse_uint item.value) item sh counter

unfoldable pub incr : ℕ → Bytes → ℕ → Shard → ℕ → Shard × ℕ × Result ℕ
unfolding incr_found
incr now key delta sh counter = incr_found now key delta (item_at sh key) sh counter

-- `memoryBytesSnapshot`
abbrev pub memory_bytes_snapshot : Shard → ℕ
memory_bytes_snapshot sh = sh.memory_bytes
