-- ===== src/Store/Totals.antt =====
-- internal/store/store.go: `Stats` and `MemoryBytes`.
use mini_key_value_store.Prelude.{
  map, sym, ◌∙◌, ℕ, ◌+◌, ◌*◌, ◌≤◌, List, [], ◌∷◌, ◌++◌, length, length-append, All, ◌≡◌, refl, ap,
  arith,
}
use mini_key_value_store.Shard.{Shard}
use mini_key_value_store.Shard.Repr.{Limits}
use mini_key_value_store.Store.{Store, Stats, add_stats, stats, sum_memory, memory_bytes}
use mini_key_value_store.Store.Valid.{ShardValid, IsValid, sum_memory-le}

abbrev pub sum : List ℕ → ℕ
sum [] = 0
sum (n ∷ ns) = n + sum ns

pub sum-append : (xs ys : List ℕ) → sum (xs ++ ys) ≡ sum xs + sum ys
sum-append [] ys = omega arith
sum-append (x ∷ xs) ys = omega (arith, sum-append xs ys)

append-nil : (xs : List ℕ) → xs ++ [] ≡ xs
append-nil [] = refl
append-nil (x ∷ xs) = ap (◌∷◌ x) (append-nil xs)

append-cons : (xs : List ℕ) (x : ℕ) (ys : List ℕ) → (xs ++ x ∷ []) ++ ys ≡ xs ++ x ∷ ys
append-cons [] x ys = refl
append-cons (a ∷ xs) x ys = ap (◌∷◌ a) (append-cons xs x ys)

-- What the loop has added once it has seen `shards`, from the totals `out` on.
add_stats-eq :
    (lim : Limits) (shards : List Shard) (out : Stats)
    → All (ShardValid lim) shards
    → ((add_stats shards out).memory_bytes ≡ out.memory_bytes + sum_memory shards)
      × ((add_stats shards out).max_memory_bytes
          ≡ out.max_memory_bytes + length shards * lim.max_memory)
      × ((add_stats shards out).items + sum out.items_per_shard
          ≡ out.items + sum (add_stats shards out).items_per_shard)
      × (length (add_stats shards out).items_per_shard ≡ length out.items_per_shard + length shards)
      × ((add_stats shards out).num_shards ≡ out.num_shards)
      × ((add_stats shards out).items_per_shard
          ≡ out.items_per_shard ++ map (λ sh. length sh.items) shards)
unfolding add_stats sum_memory
add_stats-eq lim [] out a =
    (omega arith, omega arith, refl, omega arith, refl, sym (append-nil out.items_per_shard))
add_stats-eq lim (sh ∷ rest) out a =
    let (es, r) = a.0 in
    let (m, b, i, n, s, p) = add_stats-eq lim rest _ a.1 in
    (
      omega (arith, m),
      grind (arith, b, r.memory_limit),
      omega (arith, i, sum-append out.items_per_shard (length sh.items ∷ [])),
      omega (arith, n, length-append out.items_per_shard (length sh.items ∷ [])),
      s,
      p ∙ append-cons out.items_per_shard (length sh.items) (map (λ sh'. length sh'.items) rest),
    )

-- The snapshot of a valid store of `n` shards reports the memory that `MemoryBytes` does, which is
-- within the `n` slices that it gives as the maximum; for each of the `n` shards it has the number of
-- the items in its table, and these add up to its items.
pub stats_totals :
    (lim : Limits) (n : ℕ) (s : Store)
    → IsValid lim n s
    → ((stats s).memory_bytes ≡ memory_bytes s)
      × ((stats s).max_memory_bytes ≡ n * lim.max_memory)
      × ((stats s).memory_bytes ≤ (stats s).max_memory_bytes)
      × ((stats s).items ≡ sum (stats s).items_per_shard)
      × ((stats s).items_per_shard ≡ map (λ sh. length sh.items) s.shards)
      × (length (stats s).items_per_shard ≡ n)
      × ((stats s).num_shards ≡ n)
unfolding stats memory_bytes
stats_totals lim n s v =
    let start : Stats = record {
      items = 0;
      memory_bytes = 0;
      max_memory_bytes = 0;
      evictions = 0;
      expirations = 0;
      items_per_shard = [];
      num_shards = length s.shards;
    } in
    let (m, b, i, c, k, p) = add_stats-eq lim s.shards start v.each in
    let slices = ap (λ (k : ℕ). k * lim.max_memory) v.count in
    (
      omega (arith, m),
      omega (arith, b, slices),
      omega (arith, m, b, sum_memory-le lim s.shards v.each),
      omega (arith, i),
      p,
      omega (arith, c, v.count),
      omega (arith, k, v.count),
    )
