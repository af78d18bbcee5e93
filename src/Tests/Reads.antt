-- ===== src/Tests/Reads.antt =====
-- Examples of what a client of one shard sees.
use mini_key_value_store.Prelude.{
  arith, true, ◌≢◌, ℕ, [], ◌∷◌, ◌+◌, ◌≤◌, Bytes, bytes_discrete, ℕ_discrete, none, some, pos, ◌≡◌,
  ◌↔◌, refl, ◌∙◌, length,
}
use mini_key_value_store.Decimal.{max_uint64, parse_uint, format_uint}
use mini_key_value_store.Item.{ok, expired, expires_at, is_decimal}
use mini_key_value_store.Recency
use mini_key_value_store.Shard.{add_uint64}
use mini_key_value_store.Shard.Methods.{set, get, delete, incr}
use mini_key_value_store.Shard.Repr.{IsValid}
use mini_key_value_store.Shard.Refine.Set.{set-Refines}
use mini_key_value_store.Shard.Refine.Incr.{incr-Refines}
use mini_key_value_store.Shard.Ints.{int_item_size}
use mini_key_value_store.Shard.Machine.{int_set, int_cas}
use mini_key_value_store.Shard.Machine.Exact.{int_set_succeeds, int_cas_succeeds}
use mini_key_value_store.Shard.Observe.Reads.{get-delete, get-get}
use mini_key_value_store.Shard.Observe.Cas.{HasVersion}
use mini_key_value_store.Shard.Observe.Incr.{number_of, get-incr}
use mini_key_value_store.Cache
use mini_key_value_store.Tests.{lim, key_a, key_c, text, shard2, items2, shard2-Repr}

abbrev valid2 : IsValid lim shard2
valid2 = (items2, shard2-Repr)

abbrev long : Bytes
long = 0 ∷ 0 ∷ 0 ∷ 0 ∷ 0 ∷ 0 ∷ 0 ∷ 0 ∷ 0 ∷ 0 ∷ 0 ∷ []

set_done : (set 1 key_c text (pos 5) shard2 2).2 ≡ none
unfolding Cache.set
set_done = (set-Refines lim 1 key_c text (pos 5) 2 shard2 items2 shard2-Repr).result ∙ refl

incr_done : (incr 2 key_a 981 shard2 2).2 ≡ ok 1000
unfolding Cache.set Cache.write Cache.purge Recency.find Recency.drop Recency.total Recency.room
    Recency.keep Recency.live expired expires_at bytes_discrete ℕ_discrete Cache.view Cache.cas
    Cache.incr is_decimal parse_uint format_uint
incr_done = (incr-Refines lim 2 key_a 2 shard2 items2 shard2-Repr 981).result ∙ refl

int_set_succeeds_example : ((int_set 1 key_c text (pos 5) shard2 2).2 ≡ none) ↔ (
    (length text ≤ shard2.max_value_bytes)
    × (int_item_size shard2 key_c (length text) ≤ shard2.max_memory_bytes))
int_set_succeeds_example = int_set_succeeds lim 1 key_c text (pos 5) 2 shard2 valid2 (omega arith)

int_cas_succeeds_example : ((int_cas 1 key_a text (pos 0) 1 shard2 2).2 ≡ none) ↔ (
    (length text ≤ shard2.max_value_bytes)
    × (int_item_size shard2 key_a (length text) ≤ shard2.max_memory_bytes)
    × HasVersion 1 (get 1 key_a shard2).1)
int_cas_succeeds_example = int_cas_succeeds lim 1 key_a text (pos 0) 2 shard2 valid2 (omega arith) 1

get-incr_example :
    (current : ℕ) × (number_of (get 2 key_a shard2).1 ≡ some current)
    × (1000 ≡ current + 981)
    × (1000 ≤ max_uint64)
    × ((get 2 key_a (incr 2 key_a 981 shard2 2).0).1
        ≡ some (record { value = format_uint 1000; cas = add_uint64 2 1 }))
    × (number_of (get 2 key_a (incr 2 key_a 981 shard2 2).0).1 ≡ some 1000)
get-incr_example = get-incr lim 2 key_a 981 2 shard2 valid2 1000 incr_done

get-delete_example :
    (((delete 2 key_a shard2).1 ≡ true) ↔ ((get 2 key_a shard2).1 ≢ none))
    × ((get 3 key_a (delete 2 key_a shard2).0).1 ≡ none)
get-delete_example = get-delete lim 2 key_a shard2 valid2 3

get-get_example : (get 4 key_c (get 2 key_a shard2).0).1 ≡ (get 4 key_c shard2).1
get-get_example = get-get lim 2 key_a shard2 valid2 4 key_c (omega arith)
