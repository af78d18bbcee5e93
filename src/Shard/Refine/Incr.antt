-- ===== src/Shard/Refine/Incr.antt =====
-- internal/store/shard.go: `incr` and the abstract cache.
use mini_key_value_store.Prelude.{
  ℕ, ◌+◌, ◌-◌, ◌≤◌, some, Bytes, false, ◌≡◌, refl, ap, arith, length, Bool-cases, Option-cases, inl,
  inr, ltb, ltb→lt, lt→ltb, le→ltb_false, ltb_false→le,
}
use mini_key_value_store.Decimal.{max_uint64, parse_uint, format_uint}
use mini_key_value_store.Decimal.Roundtrip.{parse_uint-le}
use mini_key_value_store.Item.{StoredItem, expired, is_decimal}
use mini_key_value_store.Recency.{Items, find}
use mini_key_value_store.Shard.{Shard, add_uint64}
use mini_key_value_store.Shard.Methods.{incr_parsed, incr}
use mini_key_value_store.Shard.Repr.{Limits, Repr}
use mini_key_value_store.Shard.Sweep.{delete_locked_at}
use mini_key_value_store.Shard.Room.Update.{update_room-HasRoom}
use mini_key_value_store.Shard.Refine.{Refines, view-some, view-expired, view-none, item_size-eq}
use mini_key_value_store.Cache
use mini_key_value_store.Cache.{view, purge, item_bytes, write}
use mini_key_value_store.Shard.Refine.Updates.{rewrite-write}

module _ (lim : Limits) (now : ℕ) (key : Bytes) (counter : ℕ) where
  abbrev size : Bytes → ℕ
  size value = item_bytes lim key value

  module _ (sh : Shard) (es : Items) (r : Repr lim sh es) where
    -- The sum does not overflow.
    incr_sum-Refines :
        (delta current : ℕ) (item : StoredItem)
        → ltb max_uint64 (current + delta) ≡ false
        → find key es ≡ some item
        → expired item now ≡ false
        → Refines lim
            (incr_parsed now key delta (some current) item sh counter)
            (Cache.incr_number lim now key delta (some current) item es counter)
    unfolding incr_parsed Cache.incr_number Cache.incr_to
    incr_sum-Refines delta current item o f x =
        let value = format_uint (current + delta) in
        let exact : add_uint64 current delta ≡ current + delta =
          omega (arith, ltb_false→le _ _ o) in
        let short = ap (λ m. ltb m (length value)) r.value_limit in
        let same = ap (λ m. ltb m (size value)) r.memory_limit in
        let sized = item_size-eq lim now key sh es r (length value) in
        let small = le→ltb_false (max_uint64 - current) delta (omega (arith, ltb_false→le _ _ o)) in
        elim (Bool-cases (ltb lim.max_value (length value))) [
          | inl v ↦
              rw (incr_parsed, small, exact, short, v, o, Cache.incr_number)
                (record { repr = r; counter = refl; result = refl })
          | inr v ↦ elim (Bool-cases (ltb lim.max_memory (size value))) [
            | inl t ↦
                rw (incr_parsed, small, exact, short, v, sized, same, t, o, Cache.incr_number)
                  (record { repr = r; counter = refl; result = refl })
            | inr t ↦
                let (es', p, e, h) =
                  update_room-HasRoom lim now key (size value) sh es item r (ltb_false→le _ _ t) f
                    x in
                let fits = ltb_false→le _ _ v in
                rw (incr_parsed, small, exact, short, v, sized, same, t, e, o, Cache.incr_number)
                  (record {
                    repr =
                        rewrite-write lim now key counter value item.expires_at p _ es es' item fits
                          f h;
                    counter = refl;
                    result = refl;
                  })
          ]
        ]

    incr_to-Refines :
        (delta current : ℕ) (item : StoredItem)
        → current ≤ max_uint64
        → find key es ≡ some item
        → expired item now ≡ false
        → Refines lim
            (incr_parsed now key delta (some current) item sh counter)
            (Cache.incr_number lim now key delta (some current) item es counter)
    unfolding incr_parsed Cache.incr_number Cache.incr_to
    incr_to-Refines delta current item c f x =
        elim (Bool-cases (ltb max_uint64 (current + delta))) [
          | inr o ↦ incr_sum-Refines delta current item o f x
          | inl o ↦
              let large = lt→ltb (max_uint64 - current) delta (omega (arith, ltb→lt _ _ o)) in
              rw (large, o, incr_parsed, Cache.incr_number)
                (record { repr = r; counter = refl; result = refl })
        ]

    -- From a shard that represents a list of items, `incr` leaves one that represents the list
    -- after the abstract `incr`, with the same CAS counter and the same result, errors included.
    pub incr-Refines :
        (delta : ℕ)
        → Refines lim (incr now key delta sh counter) (Cache.incr lim now key delta es counter)
    unfolding incr Cache.incr
    incr-Refines delta = elim (Option-cases (find key es)) [
      | inl f ↦
          let (v, p) = view-none now key es f in
          rw (incr, r.found key, f, Cache.incr, v, p)
            (record { repr = r; counter = refl; result = refl })
      | inr (e, f) ↦ elim (Bool-cases (expired e now)) [
        | inl x ↦
            let (v, p) = view-expired now key es e f x in
            rw (incr, r.found key, f, x, Cache.incr, v, p)
              (record {
                repr = delete_locked_at lim sh es key e r f;
                counter = refl;
                result = refl;
              })
        | inr x ↦
            let (v, p) = view-some now key es e f x in
            elim (Bool-cases (is_decimal e.value)) [
              | inr b ↦
                  rw (incr, r.found key, f, x, b, Cache.incr, v, b)
                    (record { repr = r; counter = refl; result = refl })
              | inl b ↦ elim (Option-cases (parse_uint e.value)) [
                | inl n ↦
                    rw (incr, r.found key, f, x, b, n, Cache.incr, v, b, n)
                      (record { repr = r; counter = refl; result = refl })
                | inr (c, n) ↦
                    rw (incr, r.found key, f, x, b, n, Cache.incr, v, b, n)
                      (incr_to-Refines delta c e (parse_uint-le e.value c n) f x)
              ]
            ]
      ]
    ]
