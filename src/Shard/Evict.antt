-- ===== src/Shard/Evict.antt =====
-- internal/store/shard.go: `evictUntilFitsLocked` on the represented list.
use mini_key_value_store.Prelude.{
  ℕ, zero, suc, ◌+◌, ◌-◌, ◌≤◌, ◌<◌, none, if_neg, Bytes, true, ◌≡◌, refl, ap, sym, ◌∙◌, arith,
  length, Bool-cases, inl, inr, ltb, ltb→lt, Distinct, ◌≢◌, some, ltb_false→le,
}
use mini_key_value_store.Item.{StoredItem}
use mini_key_value_store.Recency.{Items, names, find, drop, total, keep}
use mini_key_value_store.Recency.Laws.{
  dec, find-drop, length-drop, length-drop-le, total-drop, Distinct-drop,
}
use mini_key_value_store.Recency.Keep.{
  last_item, last_item_of_total, keep_all, keep-drop_last, drop-drop,
}
use mini_key_value_store.Shard.{
  Shard, delete_locked, evict_loop, count_evictions, evict_until_fits_locked,
}
use mini_key_value_store.Shard.Repr.{Limits, Repr, counters-Repr}
use mini_key_value_store.Shard.Walk.{candidate-last_item}
use mini_key_value_store.Shard.Sweep.{delete_locked_at}

module _ (lim : Limits) (k : Bytes) where
  module _ (size : ℕ) (es : Items) where
    -- What an eviction beside `size` bytes leaves of `es`.
    pub record Evicted (es' : Items) : Type 0 where
      pub same : find k es' ≡ find k es
      pub kept : drop k es' ≡ keep (lim.max_memory - size) (drop k es)

  -- One round: an eviction from the list without its last evictable item is one from the list.
  Evicted-drop :
      (size : ℕ) (es es' : Items) (v : StoredItem)
      → Distinct (names es)
      → v.key ≢ k
      → last_item (drop k es) ≡ some v
      → lim.max_memory - size < total (drop k es)
      → Evicted size (drop v.key es) es'
      → Evicted size es es'
  Evicted-drop size es es' v d n h over e = record {
    same = e.same ∙ find-drop v.key k es d ∙ if_neg (dec k v.key) (λ q. n (sym q)) none _;
    kept =
        e.kept
        ∙ ap (keep (lim.max_memory - size)) (drop-drop k v.key es)
        ∙ keep-drop_last _ (drop k es) v (Distinct-drop k es d) h over;
  }

  evict_loop-Repr :
      (fuel size projected evicted : ℕ) (sh : Shard) (es : Items)
      → Repr lim sh es
      → size ≤ lim.max_memory
      → projected ≡ total (drop k es) + size
      → length (drop k es) < fuel
      → (es' : Items) × Repr lim (evict_loop fuel k projected evicted sh).0 es'
        × Evicted size es es'
        × ((evict_loop fuel k projected evicted sh).2 ≡ true)
        × ((evict_loop fuel k projected evicted sh).1 + length es' ≡ evicted + length es)
  unfolding evict_loop
  evict_loop-Repr zero size projected evicted sh es r s p f = absurd (omega arith)
  evict_loop-Repr (suc fuel) size projected evicted sh es r s p f =
      elim (Bool-cases (ltb sh.max_memory_bytes projected)) [
        | inr t ↦
            let le = ltb_false→le _ _ t in
            rw (t, evict_loop)
              (
                es,
                r,
                record {
                  same = refl;
                  kept = sym (keep_all _ (drop k es) (omega (arith, le, r.memory_limit)));
                },
                refl,
                refl,
              )
        | inl t ↦
            let lt = ltb→lt _ _ t in
            let over : lim.max_memory - size < total (drop k es) =
              omega (arith, lt, r.memory_limit) in
            let (v, h) = last_item_of_total (drop k es) (omega arith) in
            let (c, g, g', n) = candidate-last_item lim k sh es v r h in
            let swap = drop-drop k v.key es in
            let fewer = length-drop v.key (drop k es) v g' in
            let less = total-drop v.key (drop k es) v g' in
            let (es', r', e, ok, count) =
              evict_loop-Repr fuel size (projected - v.size) (evicted + 1) (delete_locked v sh)
                (drop v.key es) (delete_locked_at lim sh es v.key v r g) s
                (omega (arith, ap total swap, less))
                (omega (arith, ap (λ (xs : Items). length xs) swap, fewer)) in
            rw (t, evict_loop, c)
              (
                es',
                r',
                Evicted-drop size es es' v r.chain.distinct n h over e,
                ok,
                omega (arith, count, length-drop v.key es v g),
              )
      ]

  count_evictions-Repr :
      (n : ℕ) (sh : Shard) (es : Items) → Repr lim sh es → Repr lim (count_evictions n sh) es
  unfolding count_evictions
  count_evictions-Repr n sh es r = elim (Bool-cases (ltb 0 n)) [
    | inl e ↦ rw (e, count_evictions) (counters-Repr lim sh es _ sh.expirations r)
    | inr e ↦ rw (e, count_evictions) r
  ]

  -- For a size within the limit, and a projection that is the size and the accounted bytes of the
  -- items other than the protected one, the eviction succeeds within its rounds; it leaves the
  -- protected item as it was and, of the others, the longest prefix in the order of use that fits
  -- beside the size.
  pub evict_until_fits_locked-Repr :
      (size projected : ℕ) (sh : Shard) (es : Items)
      → Repr lim sh es
      → size ≤ lim.max_memory
      → projected ≡ total (drop k es) + size
      → (es' : Items) × Repr lim (evict_until_fits_locked k projected sh).0 es'
        × Evicted size es es'
        × ((evict_until_fits_locked k projected sh).1 ≡ true)
  unfolding evict_until_fits_locked
  evict_until_fits_locked-Repr size projected sh es r s p =
      let (es', r', e, ok, _) =
        evict_loop-Repr (length sh.items + 1) size projected 0 sh es r s p
          (omega (arith, r.count, length-drop-le k es)) in
      (es', count_evictions-Repr _ _ es' r', e, ok)
