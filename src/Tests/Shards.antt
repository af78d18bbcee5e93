-- ===== src/Tests/Shards.antt =====
-- Examples of the refinement of one shard, and runs of its methods.
use mini_key_value_store.Prelude.{
  none, false, bytes_discrete, ℕ_discrete, Bytes, Distinct, if_neg, if_pos, sym, ◌∙◌, [], ◌∷◌, ◌+◌,
  pos, true, ◌≡◌, refl, arith, length,
}
use mini_key_value_store.Table
use mini_key_value_store.Table.{Table, lookup}
use mini_key_value_store.Item.{StoredItem, expired, expires_at, is_decimal, ok}
use mini_key_value_store.Decimal.{parse_uint, format_uint}
use mini_key_value_store.Recency
use mini_key_value_store.Recency.{Items, names, live, total, drop}
use mini_key_value_store.Shard.{sweep, cleanup_expired, evict_until_fits_locked}
use mini_key_value_store.Shard.Methods.{drop_stale, set_stored, get, delete}
use mini_key_value_store.Shard.Repr.{Repr}
use mini_key_value_store.Shard.Ints.{int_less, int_item_size, int_projection}
use mini_key_value_store.Shard.Machine.{int_set, int_set_sized, int_set_room, int_cas, int_incr}
use mini_key_value_store.Shard.Machine.Exact.{int_set-Refines, int_cas-Refines, int_incr-Refines}
use mini_key_value_store.Shard.Refine.{Refines}
use mini_key_value_store.Shard.Refine.Reads.{get-Refines, delete-Refines}
use mini_key_value_store.Shard.Evict.{Evicted, evict_until_fits_locked-Repr}
use mini_key_value_store.Shard.Sweep.{cleanup_expired-Repr, sweep_order_lem}
use mini_key_value_store.Cache
use mini_key_value_store.Store.Config.{new_shard}
use mini_key_value_store.Tests.{
  nineteen, shard0, lim, key_a, key_b, key_c, text, shard2, items2, shard2-Repr,
}

-- `b` is the most recent; a write of `c` at the time 1 evicts `a`, and at the time 6 drops `b`.
names2 : names items2 ≡ key_b ∷ key_a ∷ []
unfolding Cache.set Cache.write Cache.purge Recency.find Recency.drop Recency.total Recency.room
    Recency.keep Recency.live expired expires_at bytes_discrete ℕ_discrete
names2 = refl

names_early : names (Cache.set lim 1 key_c text (pos 5) items2 2).0 ≡ key_c ∷ key_b ∷ []
unfolding Cache.set Cache.write Cache.purge Recency.find Recency.drop Recency.total Recency.room
    Recency.keep Recency.live expired expires_at bytes_discrete ℕ_discrete
names_early = refl

names_late : names (Cache.set lim 6 key_c text (pos 5) items2 2).0 ≡ key_c ∷ key_a ∷ []
unfolding Cache.set Cache.write Cache.purge Recency.find Recency.drop Recency.total Recency.room
    Recency.keep Recency.live expired expires_at bytes_discrete ℕ_discrete
names_late = refl

incr_runs : (Cache.incr lim 2 key_a 981 items2 2).2 ≡ ok 1000
unfolding Cache.set Cache.write Cache.purge Recency.find Recency.drop Recency.total Recency.room
    Recency.keep Recency.live expired expires_at bytes_discrete ℕ_discrete Cache.incr Cache.view
    is_decimal parse_uint format_uint
incr_runs = refl

int_set-Refines_example :
    Refines lim
      (int_set 1 key_c text (pos 5) shard2 2)
      (Cache.set lim 1 key_c text (pos 5) items2 2)
int_set-Refines_example =
    int_set-Refines lim 1 key_c 2 shard2 items2 shard2-Repr text (pos 5) (omega arith)

int_cas-Refines_example :
    Refines lim
      (int_cas 1 key_a text (pos 5) 1 shard2 2)
      (Cache.cas lim 1 key_a text (pos 5) 1 items2 2)
int_cas-Refines_example =
    int_cas-Refines lim 1 key_a 2 shard2 items2 shard2-Repr text (pos 5) 1 (omega arith)

int_incr-Refines_example :
    Refines lim (int_incr 2 key_a 981 shard2 2) (Cache.incr lim 2 key_a 981 items2 2)
int_incr-Refines_example =
    int_incr-Refines lim 2 key_a 2 shard2 items2 shard2-Repr 981 (omega arith)

-- With an overhead near the largest `int`, the size of an item is that of a negative one, and the
-- comparison with the limit lets it pass.
wrapped :
    int_less 100
      (int_item_size (record shard0 { item_overhead_bytes = 9223372036854775807 }) key_a 1)
    ≡ false
unfolding int_less int_item_size
wrapped = refl

-- So `set` stores the item.
wrapped_stored :
    (int_set 1 key_a nineteen
      (pos 0)
      (record shard0 { item_overhead_bytes = 9223372036854775807; max_memory_bytes = 100 })
      0).2
    ≡ none
unfolding int_set int_set_sized int_set_room int_less int_item_size int_projection drop_stale
    set_stored Table.lookup new_shard
wrapped_stored = refl

get-Refines_example :
    Repr lim (get 2 key_a shard2).0 (Cache.get lim 2 key_a items2).0
    × ((get 2 key_a shard2).1 ≡ (Cache.get lim 2 key_a items2).1)
get-Refines_example = get-Refines lim 2 key_a shard2 items2 shard2-Repr

delete-Refines_example :
    Repr lim (delete 7 key_b shard2).0 (Cache.delete lim 7 key_b items2).0
    × ((delete 7 key_b shard2).1 ≡ (Cache.delete lim 7 key_b items2).1)
delete-Refines_example = delete-Refines lim 7 key_b shard2 items2 shard2-Repr

cleanup_expired-Repr_example :
    Repr lim (cleanup_expired 6 shard2).0 (live 6 items2)
    × ((cleanup_expired 6 shard2).1 + length (live 6 items2) ≡ length items2)
cleanup_expired-Repr_example = cleanup_expired-Repr lim 6 shard2 items2 shard2-Repr

-- The first two entries of a table the other way round.
abbrev swap : Table Bytes StoredItem → Table Bytes StoredItem
swap [] = []
swap (x ∷ []) = x ∷ []
swap (x ∷ y ∷ m) = y ∷ x ∷ m

lookup-swap :
    (k : Bytes) (m : Table Bytes StoredItem)
    → Distinct (Table.keys m)
    → lookup bytes_discrete k (swap m) ≡ lookup bytes_discrete k m
unfolding lookup
lookup-swap k [] d = refl
lookup-swap k (x ∷ []) d = refl
lookup-swap k ((i, x) ∷ (j, y) ∷ m) d = elim (bytes_discrete k i) [
  | yes e ↦ elim (bytes_discrete k j) [
    | yes e' ↦ absurd (d.0.0 (sym e ∙ e'))
    | no n' ↦
        rw
          (
            if_neg (bytes_discrete k j) n',
            if_pos (bytes_discrete k i) e,
            if_pos (bytes_discrete k i) e,
          )
          refl
  ]
  | no n ↦ elim (bytes_discrete k j) [
    | yes e' ↦
        rw
          (
            if_pos (bytes_discrete k j) e',
            if_neg (bytes_discrete k i) n,
            if_pos (bytes_discrete k j) e',
          )
          refl
    | no n' ↦
        rw
          (
            if_neg (bytes_discrete k j) n',
            if_neg (bytes_discrete k i) n,
            if_neg (bytes_discrete k i) n,
            if_neg (bytes_discrete k j) n',
          )
          refl
  ]
]

swap-Distinct :
    (m : Table Bytes StoredItem) → Distinct (Table.keys m) → Distinct (Table.keys (swap m))
swap-Distinct [] d = d
swap-Distinct (x ∷ []) d = d
swap-Distinct (x ∷ y ∷ m) d = (((λ e. d.0.0 (sym e)), d.1.0), (d.0.1, d.1.1))

sweep_order_lem_example :
    Repr lim (sweep 6 (swap shard2.items) 0 shard2).0 (live 6 items2)
    × Repr lim (sweep 6 shard2.items 0 shard2).0 (live 6 items2)
    × ((sweep 6 (swap shard2.items) 0 shard2).1 ≡ (sweep 6 shard2.items 0 shard2).1)
sweep_order_lem_example =
    sweep_order_lem lim 6 shard2 items2 shard2-Repr (swap shard2.items)
      (swap-Distinct shard2.items shard2-Repr.unique)
      (λ k. lookup-swap k shard2.items shard2-Repr.unique)

total2 : 32 ≡ total (drop key_c items2) + 12
unfolding Cache.set Cache.write Cache.purge Recency.find Recency.drop Recency.total Recency.room
    Recency.keep Recency.live expired expires_at bytes_discrete ℕ_discrete
total2 = refl

evict_until_fits_locked-Repr_example :
    (es' : Items) × Repr lim (evict_until_fits_locked key_c 32 shard2).0 es'
    × Evicted lim key_c 12 items2 es'
    × ((evict_until_fits_locked key_c 32 shard2).1 ≡ true)
evict_until_fits_locked-Repr_example =
    evict_until_fits_locked-Repr lim key_c 12 32 shard2 items2 shard2-Repr (omega arith) total2
