-- ===== src/Shard/Refine/Set.antt =====
-- internal/store/shard.go: `set` and the abstract cache.
use mini_key_value_store.Prelude.{
  ℕ, ◌+◌, ◌≤◌, Option, none, ◌∷◌, Bytes, Bool, ◌≡◌, refl, ap, sym, ◌∙◌, subst, length, Bool-cases,
  inl, inr, ltb, ltb_false→le, ℤ,
}
use mini_key_value_store.Item.{StoredItem, expires_at}
use mini_key_value_store.Recency.{Items, find, drop, total, room}
use mini_key_value_store.Shard.{Shard, item_at, add_uint64}
use mini_key_value_store.Shard.Methods.{size_of, store_item, set_stored, set_sized, set}
use mini_key_value_store.Shard.Repr.{Limits, Repr}
use mini_key_value_store.Shard.Room.{IsLive, HasRoom, set_room-HasRoom}
use mini_key_value_store.Shard.Write.{new_item, store_item-Repr}
use mini_key_value_store.Shard.Refine.{
  Refines, view-IsLive, find-purge, drop_stale-Repr, item_size-eq,
}
use mini_key_value_store.Cache
use mini_key_value_store.Cache.{view, purge, item_bytes, write}

module _ (lim : Limits) (now : ℕ) (key value : Bytes) (ttl : ℤ) (counter : ℕ) where
  abbrev size : ℕ
  size = item_bytes lim key value

  set_stored-Refines :
      (es es' : Items) (res : Shard × ℕ × Bool)
      → length value ≤ lim.max_value
      → HasRoom lim key size es (room now lim.max_memory size (drop key es)) res es'
      → Refines lim (set_stored now key value ttl size res counter) (
        write lim now key value (expires_at now ttl) (add_uint64 counter 1) es,
        add_uint64 counter 1,
        none,
      )
  unfolding set_stored write
  set_stored-Refines es es' res short h =
      let stored =
        store_item (item_at res.0 key) key value (expires_at now ttl) size (add_uint64 counter 1)
          res.1 res.0 in
      rw (h.fits, set_stored)
        (record {
          repr =
              subst
                (λ xs.
                  Repr lim stored
                    (new_item key value (expires_at now ttl) size (add_uint64 counter 1) ∷ xs))
                h.others
                (store_item-Repr lim res.0 es' h.repr (item_at res.0 key) key value
                  (expires_at now ttl) size (add_uint64 counter 1) res.1
                  (record { sized = refl; short = short })
                  (h.exact ∙ ap (λ xs. total xs + size) (sym h.others)) h.within
                  (sym (h.repr.found key)));
          counter = refl;
          result = refl;
        })

  set_sized-Refines :
      (sh : Shard) (es : Items) (old : Option StoredItem)
      → Repr lim sh es
      → length value ≤ lim.max_value
      → find key es ≡ old
      → IsLive now old
      → Refines lim
          (set_sized now key value ttl size (size_of old) sh counter)
          (Cache.set_sized lim now key value ttl es counter)
  unfolding set_sized Cache.set_sized
  set_sized-Refines sh es old r short f l =
      let same = ap (λ m. ltb m size) r.memory_limit in
      elim (Bool-cases (ltb lim.max_memory size)) [
        | inl t ↦
            rw (same, t, set_sized, Cache.set_sized)
              (record { repr = r; counter = refl; result = refl })
        | inr t ↦
            let (es', h) = set_room-HasRoom lim now key size sh es old r (ltb_false→le _ _ t) f l in
            rw (same, t, set_sized, Cache.set_sized) (set_stored-Refines es es' _ short h)
      ]

  -- From a shard that represents a list of items, `set` leaves one that represents the list after
  -- the abstract `set`, with the same CAS counter and the same result, errors included.
  pub set-Refines :
      (sh : Shard) (es : Items)
      → Repr lim sh es
      → Refines lim (set now key value ttl sh counter) (Cache.set lim now key value ttl es counter)
  unfolding set Cache.set
  set-Refines sh es r =
      let same = ap (λ m. ltb m (length value)) r.value_limit in
      elim (Bool-cases (ltb lim.max_value (length value))) [
        | inl t ↦ rw (same, t, set, Cache.set) (record { repr = r; counter = refl; result = refl })
        | inr t ↦
            let (r', old) = drop_stale-Repr lim now key sh es r in
            let d = r.chain.distinct in
            rw (same, t, set, Cache.set, item_size-eq lim now key _ _ r' (length value), old)
              (set_sized-Refines _ (purge now key es) (view now key es) r' (ltb_false→le _ _ t)
                (find-purge now key es d) (view-IsLive now key es))
      ]
