-- ===== src/Recency.antt =====
-- The abstract view of a shard: its items, the most recently used first. No table, no pointers and
-- no counters; what those hold is computed from the list.
pub mod Laws
pub mod Live
pub mod Keep
use mini_key_value_store.Prelude.{
  ℕ, zero, suc, ◌+◌, ◌-◌, Option, none, some, ite, List, [], ◌∷◌, Bytes, bytes_discrete, map, leb,
  if◌then◌else◌, All, ◌≡◌, ◌≤◌, length,
}
use mini_key_value_store.Item.{StoredItem, is_zero, expired}

abbrev pub Items : Type 0
Items = List StoredItem

abbrev pub names : Items → List Bytes
names [] = []
names (e ∷ es) = e.key ∷ names es

-- The item under a key.
unfoldable pub find : Bytes → Items → Option StoredItem
find k [] = none
find k (e ∷ es) = ite (bytes_discrete k e.key) (some e) (find k es)

-- The other items.
unfoldable pub drop : Bytes → Items → Items
drop k [] = []
drop k (e ∷ es) = ite (bytes_discrete k e.key) es (e ∷ drop k es)

-- The accounted bytes, and the number of items that can expire.
unfoldable pub total : Items → ℕ
total [] = 0
total (e ∷ es) = e.size + total es

abbrev pub timed_one : StoredItem → ℕ
timed_one e = if is_zero e.expires_at then 0 else 1

unfoldable pub timed : Items → ℕ
timed [] = 0
timed (e ∷ es) = timed_one e + timed es

-- The items that have not expired.
unfoldable pub live : ℕ → Items → Items
live now [] = []
live now (e ∷ es) = if expired e now then live now es else e ∷ live now es

-- The most recent items, as many as fit into `budget` bytes.
unfoldable pub keep : ℕ → Items → Items
keep budget [] = []
keep budget (e ∷ es) = if leb e.size budget then e ∷ keep (budget - e.size) es else []

-- The items other than the written one, once `size` bytes have room beside them: all, if they fit;
-- otherwise the most recent of the live ones, as many as fit.
unfoldable pub room : ℕ → ℕ → ℕ → Items → Items
room now max_memory size es =
    if leb (total es + size) max_memory then es else keep (max_memory - size) (live now es)
