-- ===== src/Shard/Room/Update.antt =====
-- internal/store/shard.go: the room that `cas` and `incr` make, on the represented list.
use mini_key_value_store.Prelude.{
  ℕ, ◌≤◌, some, Bytes, true, false, ◌≡◌, refl, ◌∙◌, Bool-cases, inl, inr, ltb, if◌then◌else◌,
}
use mini_key_value_store.Item.{StoredItem, ok, err, memory_limit_exceeded, expired}
use mini_key_value_store.Recency.{Items, find, drop, room}
use mini_key_value_store.Shard.{Shard}
use mini_key_value_store.Shard.Methods.{projection, set_room, update_room}
use mini_key_value_store.Shard.Repr.{Limits, Repr}
use mini_key_value_store.Shard.Sweep.{remove_expired_locked-Repr}
use mini_key_value_store.Shard.Room.{HasRoom, find-live_same, set_room-HasRoom}

module _ (lim : Limits) (now : ℕ) (key : Bytes) (size : ℕ) where
  -- `cas` and `incr` make the room that `set` makes: they find their item again.
  update_room-eq :
      (sh : Shard) (es : Items) (item : StoredItem)
      → Repr lim sh es
      → find key es ≡ some item
      → expired item now ≡ false
      → update_room now key size item sh ≡ (
          let (sh', projected, fits) = set_room now key size item.size sh in
          (sh', (if fits then ok (item, projected) else err memory_limit_exceeded)))
  unfolding update_room set_room
  update_room-eq sh es item r f l =
      elim (Bool-cases (ltb sh.max_memory_bytes (projection sh item.size size))) [
        | inr t ↦ rw (t, update_room, set_room)
        | inl t ↦ elim (Bool-cases (ltb 0 sh.ttl_count)) [
          | inr c ↦ rw (t, update_room, set_room, c)
          | inl c ↦
              let r' = remove_expired_locked-Repr lim now sh es r in
              let again =
                r'.found key ∙ find-live_same now key es (some item) r.chain.distinct f l in
              rw (t, update_room, set_room, c, again)
        ]
      ]

  pub update_room-HasRoom :
      (sh : Shard) (es : Items) (item : StoredItem)
      → Repr lim sh es
      → size ≤ lim.max_memory
      → find key es ≡ some item
      → expired item now ≡ false
      → (es' : Items) × (projected : ℕ) × ((update_room now key size item sh).1
          ≡ ok (item, projected))
        × HasRoom lim key size es
            (room now lim.max_memory size (drop key es))
            ((update_room now key size item sh).0, projected, true)
            es'
  update_room-HasRoom sh es item r s f l =
      let (es', h) = set_room-HasRoom lim now key size sh es (some item) r s f l in
      (
        es',
        (set_room now key size item.size sh).1,
        rw (update_room-eq sh es item r f l, h.fits),
        rw (update_room-eq sh es item r f l) (record {
          repr = h.repr;
          same = h.same;
          others = h.others;
          exact = h.exact;
          within = h.within;
          fits = refl;
        }),
      )
