-- ===== src/Shard/Refine/Updates.antt =====
-- internal/store/shard.go: `cas` and the abstract cache.
use mini_key_value_store.Prelude.{
  ℕ, ◌+◌, ◌≤◌, some, ◌∷◌, Bytes, true, false, ◌≡◌, refl, ap, sym, ◌∙◌, subst, length, Bool-cases,
  Option-cases, inl, inr, ltb, ltb_false→le, ℤ, ◌==◌,
}
use mini_key_value_store.Item.{StoredItem, expires_at, expired}
use mini_key_value_store.Recency.{Items, find, drop, total, room}
use mini_key_value_store.Shard.{Shard, add_uint64}
use mini_key_value_store.Shard.Methods.{store_item, rewrite, cas_found, cas}
use mini_key_value_store.Shard.Repr.{Limits, Repr}
use mini_key_value_store.Shard.Sweep.{delete_locked_at}
use mini_key_value_store.Shard.Room.{HasRoom}
use mini_key_value_store.Shard.Room.Update.{update_room-HasRoom}
use mini_key_value_store.Shard.Write.{new_item, store_item-Repr}
use mini_key_value_store.Shard.Refine.{Refines, view-some, view-expired, view-none, item_size-eq}
use mini_key_value_store.Cache
use mini_key_value_store.Cache.{view, purge, item_bytes, write}

module _ (lim : Limits) (now : ℕ) (key : Bytes) (counter : ℕ) where
  abbrev size : Bytes → ℕ
  size value = item_bytes lim key value

  -- The write of a found item, once room is made.
  pub rewrite-write :
      (value : Bytes) (expiry projected : ℕ) (sh : Shard) (es es' : Items) (item : StoredItem)
      → length value ≤ lim.max_value
      → find key es ≡ some item
      → HasRoom lim key
          (size value)
          es
          (room now lim.max_memory (size value) (drop key es))
          (sh, projected, true)
          es'
      → Repr lim
          (rewrite item value expiry (size value) (add_uint64 counter 1) projected sh)
          (write lim now key value expiry (add_uint64 counter 1) es)
  unfolding write store_item
  rewrite-write value expiry projected sh es es' item short f h =
      let c = add_uint64 counter 1 in
      let stored = rewrite item value expiry (size value) c projected sh in
      subst (λ xs. Repr lim stored (new_item key value expiry (size value) c ∷ xs)) h.others
        (store_item-Repr lim sh es' h.repr (some item) key value expiry (size value) c projected
          (record { sized = refl; short = short })
          (h.exact ∙ ap (λ xs. total xs + size value) (sym h.others)) h.within (h.same ∙ f))

  module _ (sh : Shard) (es : Items) (r : Repr lim sh es) where
    cas_found-Refines :
        (value : Bytes) (ttl : ℤ) (expected : ℕ) (item : StoredItem)
        → length value ≤ lim.max_value
        → find key es ≡ some item
        → expired item now ≡ false
        → Refines lim
            (cas_found now key value ttl expected (some item) sh counter)
            (Cache.cas_view lim now key value ttl expected (some item) es counter)
    unfolding cas_found Cache.cas_view
    cas_found-Refines value ttl expected item short f x =
        let same = ap (λ m. ltb m (size value)) r.memory_limit in
        elim (Bool-cases (item.cas == expected)) [
          | inr m ↦
              rw (cas_found, x, m, Cache.cas_view)
                (record { repr = r; counter = refl; result = refl })
          | inl m ↦ elim (Bool-cases (ltb lim.max_memory (size value))) [
            | inl t ↦
                rw
                  (
                    cas_found,
                    x,
                    m,
                    item_size-eq lim now key sh es r (length value),
                    same,
                    t,
                    Cache.cas_view,
                  )
                  (record { repr = r; counter = refl; result = refl })
            | inr t ↦
                let (es', p, e, h) =
                  update_room-HasRoom lim now key (size value) sh es item r (ltb_false→le _ _ t) f
                    x in
                rw
                  (
                    cas_found,
                    x,
                    m,
                    item_size-eq lim now key sh es r (length value),
                    same,
                    t,
                    e,
                    Cache.cas_view,
                  )
                  (record {
                    repr = rewrite-write value (expires_at now ttl) p _ es es' item short f h;
                    counter = refl;
                    result = refl;
                  })
          ]
        ]

    -- From a shard that represents a list of items, `cas` leaves one that represents the list
    -- after the abstract `cas`, with the same CAS counter and the same result, errors included.
    pub cas-Refines :
        (value : Bytes) (ttl : ℤ) (expected : ℕ)
        → Refines lim
            (cas now key value ttl expected sh counter)
            (Cache.cas lim now key value ttl expected es counter)
    unfolding cas Cache.cas
    cas-Refines value ttl expected =
        let same = ap (λ m. ltb m (length value)) r.value_limit in
        elim (Bool-cases (ltb lim.max_value (length value))) [
          | inl t ↦
              rw (cas, same, t, Cache.cas) (record { repr = r; counter = refl; result = refl })
          | inr t ↦ elim (Option-cases (find key es)) [
            | inl f ↦
                let (v, p) = view-none now key es f in
                rw (cas, same, t, r.found key, f, Cache.cas, v, p)
                  (record { repr = r; counter = refl; result = refl })
            | inr (e, f) ↦ elim (Bool-cases (expired e now)) [
              | inl x ↦
                  let (v, p) = view-expired now key es e f x in
                  rw (cas, same, t, r.found key, f, x, Cache.cas, v, p)
                    (record {
                      repr = delete_locked_at lim sh es key e r f;
                      counter = refl;
                      result = refl;
                    })
              | inr x ↦
                  let (v, p) = view-some now key es e f x in
                  rw (cas, same, t, r.found key, f, Cache.cas, v)
                    (cas_found-Refines value ttl expected e (ltb_false→le _ _ t) f x)
            ]
          ]
        ]
