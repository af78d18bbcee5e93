-- ===== src/Cache.antt =====
-- The abstract specification of a shard: a cache that is a list of items, the most recently used
-- first. There is no table, no list of pointers and no counter of bytes to keep in step.
pub mod Laws
pub mod Stamps
use mini_key_value_store.Prelude.{
  ℕ, ◌+◌, ◌-◌, Bool, true, false, not, Option, none, some, ◌∷◌, Bytes, ℤ, length, ltb, ◌==◌,
  if◌then◌else◌,
}
use mini_key_value_store.Decimal.{max_uint64, parse_uint, format_uint}
use mini_key_value_store.Item.{
  StoredItem, Item, StoreError, not_found, not_integer, overflow, value_too_large,
  memory_limit_exceeded, cas_mismatch, expires_at, expired, is_decimal, Result, ok, err,
}
use mini_key_value_store.Recency.{Items, find, drop, room}
use mini_key_value_store.Shard.{add_uint64}
use mini_key_value_store.Shard.Repr.{Limits}

-- The item that can be seen under a key.
unfoldable pub view : ℕ → Bytes → Items → Option StoredItem
view now key es = elim (find key es) [
  | none ↦ none
  | some e ↦ if expired e now then none else some e
]

-- The items once an access to `key` has dropped what had expired under it.
unfoldable pub purge : ℕ → Bytes → Items → Items
purge now key es = elim (find key es) [
  | none ↦ es
  | some e ↦ if expired e now then drop key es else es
]

abbrev pub item_bytes : Limits → Bytes → Bytes → ℕ
item_bytes lim key value = length key + length value + lim.overhead

module _ (lim : Limits) (now : ℕ) (key : Bytes) where
  -- The item goes to the front, and the others give way.
  unfoldable pub write : Bytes → ℕ → ℕ → Items → Items
  write value expiry cas es =
      let size = item_bytes lim key value in
      record { key = key; value = value; expires_at = expiry; size = size; cas = cas }
      ∷ room now lim.max_memory size (drop key es)

  unfoldable pub set_sized : Bytes → ℤ → Items → ℕ → Items × ℕ × Option StoreError
  set_sized value ttl es counter =
      let c = add_uint64 counter 1 in
      if ltb lim.max_memory (item_bytes lim key value)
      then (es, counter, some memory_limit_exceeded)
      else (write value (expires_at now ttl) c es, c, none)

  unfoldable pub set : Bytes → ℤ → Items → ℕ → Items × ℕ × Option StoreError
  unfolding set_sized
  set value ttl es counter =
      if ltb lim.max_value (length value)
      then (es, counter, some value_too_large)
      else set_sized value ttl (purge now key es) counter

  unfoldable pub get : Items → Items × Option Item
  get es = elim (view now key es) [
    | none ↦ (purge now key es, none)
    | some e ↦ (e ∷ drop key es, some (record { value = e.value; cas = e.cas }))
  ]

  unfoldable pub delete : Items → Items × Bool
  delete es = (drop key es, elim (view now key es) [ none ↦ false | some _ ↦ true ])

  unfoldable pub cas_view :
      Bytes → ℤ → ℕ → Option StoredItem → Items → ℕ → Items × ℕ × Option StoreError
  cas_view value ttl expected none es counter = (purge now key es, counter, some not_found)
  cas_view value ttl expected (some e) es counter =
      if not (e.cas == expected)
      then (es, counter, some cas_mismatch)
      else if ltb lim.max_memory (item_bytes lim key value)
      then (es, counter, some memory_limit_exceeded)
      else (let c = add_uint64 counter 1 in (write value (expires_at now ttl) c es, c, none))

  unfoldable pub cas : Bytes → ℤ → ℕ → Items → ℕ → Items × ℕ × Option StoreError
  unfolding cas_view
  cas value ttl expected es counter =
      if ltb lim.max_value (length value)
      then (es, counter, some value_too_large)
      else cas_view value ttl expected (view now key es) es counter

  unfoldable pub incr_to : ℕ → StoredItem → Items → ℕ → Items × ℕ × Result ℕ
  incr_to next e es counter =
      let value = format_uint next in
      if ltb lim.max_value (length value)
      then (es, counter, err value_too_large)
      else if ltb lim.max_memory (item_bytes lim key value)
      then (es, counter, err memory_limit_exceeded)
      else (let c = add_uint64 counter 1 in (write value e.expires_at c es, c, ok next))

  unfoldable pub incr_number : ℕ → Option ℕ → StoredItem → Items → ℕ → Items × ℕ × Result ℕ
  incr_number delta none e es counter = (es, counter, err not_integer)
  incr_number delta (some current) e es counter =
      if ltb max_uint64 (current + delta)
      then (es, counter, err overflow)
      else incr_to (current + delta) e es counter

  unfoldable pub incr_view : ℕ → Option StoredItem → Items → ℕ → Items × ℕ × Result ℕ
  incr_view delta none es counter = (purge now key es, counter, err not_found)
  incr_view delta (some e) es counter =
      if is_decimal e.value
      then incr_number delta (parse_uint e.value) e es counter
      else (es, counter, err not_integer)

  unfoldable pub incr : ℕ → Items → ℕ → Items × ℕ × Result ℕ
  unfolding incr_view incr_number incr_to
  incr delta es counter = incr_view delta (view now key es) es counter
