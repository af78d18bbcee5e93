-- ===== src/Shard/Machine/Rooms.antt =====
-- internal/store/shard.go: the room that the writes of the machine make is that of Methods, if no sum
-- wraps.
use mini_key_value_store.Prelude.{
  ℕ, ◌+◌, ◌^◌, ◌≤◌, ◌<◌, Option, none, some, Bool-cases, inl, inr, Bytes, ltb, ◌≡◌, refl, sym, ◌∙◌,
  subst, arith,
}
use mini_key_value_store.Item.{StoredItem}
use mini_key_value_store.Recency.{Items, find, live}
use mini_key_value_store.Shard.{Shard, item_at, remove_expired_locked}
use mini_key_value_store.Shard.Methods.{
  projection, size_of, evict_room, set_room, room_again, update_room,
}
use mini_key_value_store.Shard.Repr.{Limits, Repr}
use mini_key_value_store.Shard.Sweep.{remove_expired_locked-Repr}
use mini_key_value_store.Shard.Evict.{evict_until_fits_locked-Repr}
use mini_key_value_store.Shard.Room.{projection-eq}
use mini_key_value_store.Shard.Ints.{
  int_less, int_projection, int_less-ltb, int_projection-eq, old_size-le,
}
use mini_key_value_store.Shard.Machine.{
  int_evict_room, int_set_room, int_room_again, int_update_room,
}

module _ (lim : Limits) (key : Bytes) (size : ℕ) (s : size ≤ lim.max_memory)
    (h : size + lim.max_memory < 2 ^ 63) where
  module _ (sh : Shard) (es : Items) (old : Option StoredItem) (r : Repr lim sh es)
      (f : find key es ≡ old) where
    int_projection-Repr : int_projection sh (size_of old) size ≡ projection sh (size_of old) size
    int_projection-Repr =
        let le : size_of old ≤ sh.memory_bytes =
          subst (λ o. size_of o ≤ sh.memory_bytes) (r.found key ∙ f)
            (old_size-le lim sh es key r) in
        int_projection-eq sh (size_of old) size le (omega (arith, h, r.memory, r.fits))

    int_less-Repr :
        int_less sh.max_memory_bytes (projection sh (size_of old) size)
        ≡ ltb sh.max_memory_bytes (projection sh (size_of old) size)
    int_less-Repr =
        int_less-ltb sh.max_memory_bytes (projection sh (size_of old) size)
          (omega (arith, h, r.memory_limit)) (omega (arith, h, r.memory, r.fits))

  int_evict_room-eq :
      (sh : Shard) (es : Items) (old : Option StoredItem)
      → Repr lim sh es
      → find key es ≡ old
      → int_evict_room key size (size_of old) sh ≡ evict_room key size (size_of old) sh
  unfolding int_evict_room evict_room
  int_evict_room-eq sh es old r f =
      let p = int_projection-Repr sh es old r f in
      let t = int_less-Repr sh es old r f in
      elim (Bool-cases (ltb sh.max_memory_bytes (projection sh (size_of old) size))) [
        | inr b ↦ rw (int_evict_room, evict_room, p, t, b) refl
        | inl b ↦
            let (es', r', e, _) =
              evict_until_fits_locked-Repr lim key size (projection sh (size_of old) size) sh es r s
                (projection-eq lim key size sh es old r f) in
            let q = int_projection-Repr _ es' old r' (e.same ∙ f) in
            rw (int_evict_room, evict_room, p, t, b, q) refl
      ]

  pub int_set_room-eq :
      (now : ℕ) (sh : Shard) (es : Items) (old : Option StoredItem)
      → Repr lim sh es
      → find key es ≡ old
      → int_set_room now key size (size_of old) sh ≡ set_room now key size (size_of old) sh
  unfolding int_set_room set_room
  int_set_room-eq now sh es old r f =
      let p = int_projection-Repr sh es old r f in
      let t = int_less-Repr sh es old r f in
      elim (Bool-cases (ltb sh.max_memory_bytes (projection sh (size_of old) size))) [
        | inr b ↦ rw (int_set_room, set_room, p, t, b) refl
        | inl b ↦ elim (Bool-cases (ltb 0 sh.ttl_count)) [
          | inr c ↦ rw (int_set_room, set_room, p, t, b, c) (int_evict_room-eq sh es old r f)
          | inl c ↦
              let sh' = remove_expired_locked now sh in
              let r' = remove_expired_locked-Repr lim now sh es r in
              rw (int_set_room, set_room, p, t, b, c)
                (int_evict_room-eq sh' (live now es) (item_at sh' key) r' (sym (r'.found key)))
        ]
      ]

  int_room_again-eq :
      (sh : Shard) (es : Items) (old : Option StoredItem)
      → Repr lim sh es
      → find key es ≡ old
      → int_room_again key size old sh ≡ room_again key size old sh
  unfolding int_room_again room_again
  int_room_again-eq sh es none r f = refl
  int_room_again-eq sh es (some item) r f = rw (int_evict_room-eq sh es (some item) r f) refl

  pub int_update_room-eq :
      (now : ℕ) (sh : Shard) (es : Items) (item : StoredItem)
      → Repr lim sh es
      → find key es ≡ some item
      → int_update_room now key size item sh ≡ update_room now key size item sh
  unfolding int_update_room update_room
  int_update_room-eq now sh es item r f =
      let p = int_projection-Repr sh es (some item) r f in
      let t = int_less-Repr sh es (some item) r f in
      elim (Bool-cases (ltb sh.max_memory_bytes (projection sh item.size size))) [
        | inr b ↦ rw (int_update_room, update_room, p, t, b) refl
        | inl b ↦ elim (Bool-cases (ltb 0 sh.ttl_count)) [
          | inr c ↦
              rw (int_update_room, update_room, p, t, b, c)
                (int_room_again-eq sh es (some item) r f)
          | inl c ↦
              let sh' = remove_expired_locked now sh in
              let r' = remove_expired_locked-Repr lim now sh es r in
              rw (int_update_room, update_room, p, t, b, c)
                (int_room_again-eq sh' (live now es) (item_at sh' key) r' (sym (r'.found key)))
        ]
      ]
