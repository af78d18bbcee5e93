-- ===== src/Shard/Observe/Cas.antt =====
-- `cas` as a client of the shard sees it.
use mini_key_value_store.Prelude.{
  ℕ, ◌≤◌, ◌<◌, Option, none, some, Bytes, ◌≡◌, ◌⊎◌, ◌↔◌, inl, inr, ap, sym, ◌∙◌, arith, length, ℤ,
  Distinct,
}
use mini_key_value_store.Item.{Item, StoreError, expires_at}
use mini_key_value_store.Recency.{Items, names}
use mini_key_value_store.Shard.{Shard, add_uint64, item_size}
use mini_key_value_store.Shard.Methods.{get, cas}
use mini_key_value_store.Shard.Repr.{Limits, IsValid}
use mini_key_value_store.Shard.Refine.{item_size-eq}
use mini_key_value_store.Shard.Refine.Updates.{cas-Refines}
use mini_key_value_store.Shard.Observe.{shown, get-view, view-purge}
use mini_key_value_store.Cache
use mini_key_value_store.Cache.{view, purge, item_bytes, write}
use mini_key_value_store.Cache.Laws.{view-write_self, seen_live}

-- Some item is shown, with the version `v`.
abbrev pub HasVersion : ℕ → Option Item → Type 0
HasVersion v none = ⊥
HasVersion v (some i) = i.cas ≡ v

module _ (lim : Limits) (now : ℕ) (key value : Bytes) (ttl : ℤ) (expected counter : ℕ) where
  abbrev after : Shard → Shard
  after sh = (cas now key value ttl expected sh counter).0

  abbrev result : Shard → Option StoreError
  result sh = (cas now key value ttl expected sh counter).2

  abbrev cache_cas : Items → Items × ℕ × Option StoreError
  cache_cas es = Cache.cas lim now key value ttl expected es counter

  cache_cas_iff :
      (es : Items)
      → ((cache_cas es).2 ≡ none) ↔ (
          (length value ≤ lim.max_value)
          × (item_bytes lim key value ≤ lim.max_memory)
          × HasVersion expected (shown (view now key es)))
  unfolding Cache.cas Cache.cas_view
  cache_cas_iff es = ground arith

  cache_cas_written :
      (es : Items)
      → (cache_cas es).2 ≡ none
      → (cache_cas es).0 ≡ write lim now key value (expires_at now ttl) (add_uint64 counter 1) es
  unfolding Cache.cas Cache.cas_view
  cache_cas_written es h = ground arith

  cache_cas_failed :
      (es : Items) (e : StoreError)
      → (cache_cas es).2 ≡ some e
      → ((cache_cas es).0 ≡ es) ⊎ ((cache_cas es).0 ≡ purge now key es)
  unfolding Cache.cas Cache.cas_view
  cache_cas_failed es e h = ground arith

  module _ (sh : Shard) (valid : IsValid lim sh) where
    -- On a valid shard, `cas` succeeds exactly when the key reads with the expected version and
    -- the value and the accounted item are within their limits.
    pub cas_succeeds_iff : (result sh ≡ none) ↔ (
        (length value ≤ sh.max_value_bytes)
        × (item_size sh key (length value) ≤ sh.max_memory_bytes)
        × HasVersion expected (get now key sh).1)
    cas_succeeds_iff =
        let (es, r) = valid in
        let same = (cas-Refines lim now key counter sh es r value ttl expected).result in
        let size = item_size-eq lim now key sh es r (length value) in
        rw (same, get-view lim now key sh es r, size, r.value_limit, r.memory_limit)
          (cache_cas_iff es)

    -- What a successful `cas` on a valid shard wrote is read back, with the version that it was
    -- given, at any time before it expires.
    pub get-cas_self :
        (now' : ℕ)
        → result sh ≡ none
        → (expires_at now ttl ≡ 0) ⊎ (now' < expires_at now ttl)
        → (get now' key (after sh)).1 ≡ some (record { value = value; cas = add_uint64 counter 1 })
    get-cas_self now' h x =
        let (es, r) = valid in
        let q = cas-Refines lim now key counter sh es r value ttl expected in
        let w = cache_cas_written es (sym q.result ∙ h) in
        let c = add_uint64 counter 1 in
        get-view lim now' key (after sh) _ q.repr
        ∙ ap shown (
            ap (view now' key) w
            ∙ view-write_self lim now key es r.chain.distinct now' value (expires_at now ttl) c
            ∙ seen_live now' (expires_at now ttl) key value _ _ x)

    -- A `cas` on a valid shard that fails changes nothing that can be read, under any key, from
    -- then on.
    pub get-cas_failed :
        (now' : ℕ) (j : Bytes) (e : StoreError)
        → result sh ≡ some e
        → now ≤ now'
        → (get now' j (after sh)).1 ≡ (get now' j sh).1
    get-cas_failed now' j e h le =
        let (es, r) = valid in
        let q = cas-Refines lim now key counter sh es r value ttl expected in
        get-view lim now' j (after sh) _ q.repr
        ∙ ap shown (unchanged es r.chain.distinct (cache_cas_failed es e (sym q.result ∙ h)))
        ∙ sym (get-view lim now' j sh es r)
      where
        unchanged :
            (es : Items)
            → Distinct (names es)
            → ((cache_cas es).0 ≡ es) ⊎ ((cache_cas es).0 ≡ purge now key es)
            → view now' j (cache_cas es).0 ≡ view now' j es
        unchanged es d (inl p) = ap (view now' j) p
        unchanged es d (inr p) = ap (view now' j) p ∙ view-purge now now' key j es d le
