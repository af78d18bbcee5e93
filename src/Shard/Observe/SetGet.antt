-- ===== src/Shard/Observe/SetGet.antt =====
-- `set` as a client of the shard sees it.
use mini_key_value_store.Prelude.{
  ℕ, ◌≤◌, ◌<◌, Option, none, some, Bytes, ◌≡◌, ◌≢◌, ◌⊎◌, ◌↔◌, inl, inr, ap, sym, ◌∙◌, subst, arith,
  length, ℤ, Distinct,
}
use mini_key_value_store.Item.{StoreError, expires_at}
use mini_key_value_store.Recency.{Items, names}
use mini_key_value_store.Shard.{Shard, add_uint64, item_size}
use mini_key_value_store.Shard.Methods.{get, set}
use mini_key_value_store.Shard.Repr.{Limits, IsValid}
use mini_key_value_store.Shard.Refine.{item_size-eq, drop_stale-Repr}
use mini_key_value_store.Shard.Refine.Set.{set-Refines}
use mini_key_value_store.Shard.Observe.{shown, shown-Fewer, get-view, view-purge}
use mini_key_value_store.Cache
use mini_key_value_store.Cache.{view, purge, item_bytes, write}
use mini_key_value_store.Cache.Laws.{view-write_self, view-write_other, view-purge_other, seen_live}

module _ (lim : Limits) (now : ℕ) (key value : Bytes) (ttl : ℤ) (counter : ℕ) where
  abbrev after : Shard → Shard
  after sh = (set now key value ttl sh counter).0

  abbrev result : Shard → Option StoreError
  result sh = (set now key value ttl sh counter).2

  -- The value and the item are within their limits.
  abbrev Fits : Shard → Type 0
  Fits sh =
      (length value ≤ sh.max_value_bytes) × (item_size sh key (length value) ≤ sh.max_memory_bytes)

  -- The abstract `set` writes, or fails and at most purges.
  cache_set_written :
      (es : Items)
      → (Cache.set lim now key value ttl es counter).2 ≡ none
      → (Cache.set lim now key value ttl es counter).0
        ≡ write lim now key value (expires_at now ttl) (add_uint64 counter 1) (purge now key es)
  unfolding Cache.set Cache.set_sized
  cache_set_written es h = ground arith

  cache_set_failed :
      (es : Items) (e : StoreError)
      → (Cache.set lim now key value ttl es counter).2 ≡ some e
      → ((Cache.set lim now key value ttl es counter).0 ≡ es)
        ⊎ ((Cache.set lim now key value ttl es counter).0 ≡ purge now key es)
  unfolding Cache.set Cache.set_sized
  cache_set_failed es e h = ground arith

  cache_set_iff :
      (es : Items)
      → ((Cache.set lim now key value ttl es counter).2 ≡ none)
        ↔ ((length value ≤ lim.max_value) × (item_bytes lim key value ≤ lim.max_memory))
  unfolding Cache.set Cache.set_sized
  cache_set_iff es = ground arith

  module _ (sh : Shard) (valid : IsValid lim sh) where
    -- On a valid shard, `set` succeeds exactly when the value and the accounted item are within
    -- their limits: making room for them never fails.
    pub set_succeeds_iff : (result sh ≡ none) ↔ Fits sh
    set_succeeds_iff =
        let (es, r) = valid in
        let same = (set-Refines lim now key value ttl counter sh es r).result in
        let (to, from) = cache_set_iff es in
        let size = item_size-eq lim now key sh es r (length value) in
        (
          λ h.
              let (a, b) = to (sym same ∙ h) in
              (omega (arith, r.value_limit), omega (arith, size, r.memory_limit)),
          λ h. same ∙ from (omega (arith, r.value_limit), omega (arith, size, r.memory_limit)),
        )

    -- What a successful `set` on a valid shard wrote is read back, with the version that it was
    -- given, at any time before it expires.
    pub get-set_self :
        (now' : ℕ)
        → result sh ≡ none
        → (expires_at now ttl ≡ 0) ⊎ (now' < expires_at now ttl)
        → (get now' key (after sh)).1 ≡ some (record { value = value; cas = add_uint64 counter 1 })
    get-set_self now' h x =
        let (es, r) = valid in
        let q = set-Refines lim now key value ttl counter sh es r in
        let w = cache_set_written es (sym q.result ∙ h) in
        let d = (drop_stale-Repr lim now key sh es r).0.chain.distinct in
        get-view lim now' key (after sh) _ q.repr
        ∙ ap shown (
            ap (view now' key) w
            ∙ view-write_self lim now key (purge now key es) d now' value (expires_at now ttl)
                (add_uint64 counter 1)
            ∙ seen_live now' (expires_at now ttl) key value _ _ x)

    -- After a successful `set` on a valid shard, another key reads as before, or as absent
    -- (evicted or expired).
    pub get-set_other :
        (now' : ℕ) (j : Bytes)
        → result sh ≡ none
        → j ≢ key
        → ((get now' j (after sh)).1 ≡ none) ⊎ ((get now' j (after sh)).1 ≡ (get now' j sh).1)
    get-set_other now' j h n =
        let (es, r) = valid in
        let q = set-Refines lim now key value ttl counter sh es r in
        let w = cache_set_written es (sym q.result ∙ h) in
        let d = (drop_stale-Repr lim now key sh es r).0.chain.distinct in
        let fewer =
          view-write_other lim now key (purge now key es) d now' j value (expires_at now ttl)
            (add_uint64 counter 1) n in
        rw (get-view lim now' j (after sh) _ q.repr, get-view lim now' j sh es r, w)
          (subst
            (λ v.
              (shown (
                  view now' j (
                    write lim now key value (expires_at now ttl) (add_uint64 counter 1)
                      (purge now key es)))
                ≡ none)
              ⊎ (shown (
                    view now' j (
                      write lim now key value (expires_at now ttl) (add_uint64 counter 1)
                        (purge now key es)))
                  ≡ shown v))
            (view-purge_other now key es r.chain.distinct now' j n) (shown-Fewer fewer))

    -- A `set` on a valid shard that fails changes nothing that can be read, under any key, from
    -- then on.
    pub get-set_failed :
        (now' : ℕ) (j : Bytes) (e : StoreError)
        → result sh ≡ some e
        → now ≤ now'
        → (get now' j (after sh)).1 ≡ (get now' j sh).1
    get-set_failed now' j e h le =
        let (es, r) = valid in
        let q = set-Refines lim now key value ttl counter sh es r in
        get-view lim now' j (after sh) _ q.repr
        ∙ ap shown (unchanged es r.chain.distinct (cache_set_failed es e (sym q.result ∙ h)))
        ∙ sym (get-view lim now' j sh es r)
      where
        unchanged :
            (es : Items)
            → Distinct (names es)
            → ((Cache.set lim now key value ttl es counter).0 ≡ es)
              ⊎ ((Cache.set lim now key value ttl es counter).0 ≡ purge now key es)
            → view now' j (Cache.set lim now key value ttl es counter).0 ≡ view now' j es
        unchanged es d (inl p) = ap (view now' j) p
        unchanged es d (inr p) = ap (view now' j) p ∙ view-purge now now' key j es d le
