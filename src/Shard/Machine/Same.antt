-- ===== src/Shard/Machine/Same.antt =====
-- internal/store/shard.go: the writes of the machine are those of Methods, if no sum wraps.
use mini_key_value_store.Prelude.{
  zero, suc, ◌/◌, ◌%◌, [], ◌∷◌, ℕ, ◌+◌, ◌-◌, ◌^◌, ◌≤◌, ◌<◌, not, Option, none, some, Option-cases,
  Bool-cases, inl, inr, Bytes, length, ltb, ◌==◌, if◌then◌else◌, ◌≡◌, refl, ap, sym, ◌∙◌, arith, ℤ,
  ltb_false→le,
}
use mini_key_value_store.Decimal.{max_uint64, parse_uint, format_digits, format_uint}
use mini_key_value_store.Item.{
  StoredItem, not_found, not_integer, overflow, value_too_large, memory_limit_exceeded,
  cas_mismatch, expires_at, expired, is_decimal, Result, err,
}
use mini_key_value_store.Recency.{Items, find}
use mini_key_value_store.Shard.{Shard, item_at, item_size, add_uint64, delete_locked}
use mini_key_value_store.Shard.Methods.{
  size_of, drop_stale, set_stored, set_sized, set, update_room, cas_write, cas_found, cas,
  incr_write, incr_parsed, incr_found, incr,
}
use mini_key_value_store.Shard.Repr.{Limits, Repr}
use mini_key_value_store.Shard.Refine.{drop_stale-Repr, item_size-eq, find-purge}
use mini_key_value_store.Cache.{view, purge}
use mini_key_value_store.Shard.Ints.{int_item_size-eq, int_item_size, int_less, int_less-ltb}
use mini_key_value_store.Shard.Machine.{
  int_set_sized, int_set, int_update_room, int_cas_found, int_cas, int_incr_parsed, int_incr_found,
  int_incr,
}
use mini_key_value_store.Shard.Machine.Rooms.{int_set_room-eq, int_update_room-eq}

module _ (lim : Limits) (now : ℕ) (key value : Bytes) (ttl : ℤ) (counter : ℕ) where
  int_set_sized-eq :
      (size : ℕ) (sh : Shard) (es : Items) (old : Option StoredItem)
      → size + lim.max_memory < 2 ^ 63
      → Repr lim sh es
      → find key es ≡ old
      → int_set_sized now key value ttl size (size_of old) sh counter
        ≡ set_sized now key value ttl size (size_of old) sh counter
  unfolding int_set_sized set_sized
  int_set_sized-eq size sh es old h r f =
      let t =
        int_less-ltb sh.max_memory_bytes size (omega (arith, h, r.memory_limit))
          (omega (arith, h)) in
      elim (Bool-cases (ltb sh.max_memory_bytes size)) [
        | inl b ↦ rw (int_set_sized, set_sized, t, b) refl
        | inr b ↦
            let le = ltb_false→le _ _ b in
            let room =
              int_set_room-eq lim key size (omega (arith, le, r.memory_limit)) h now sh es old r
                f in
            rw (int_set_sized, set_sized, t, b)
              (ap (λ x. set_stored now key value ttl size x counter) room)
      ]

  pub int_set-eq :
      (sh : Shard) (es : Items)
      → Repr lim sh es
      → length key + length value + lim.overhead + lim.max_memory < 2 ^ 63
      → int_set now key value ttl sh counter ≡ set now key value ttl sh counter
  unfolding int_set set
  int_set-eq sh es r h =
      let (sh', old_size) = drop_stale now (item_at sh key) sh in
      let (r', old) = drop_stale-Repr lim now key sh es r in
      let size = int_item_size-eq lim sh' (purge now key es) key (length value) r' h in
      let exact = item_size-eq lim now key sh' (purge now key es) r' (length value) in
      let found = find-purge now key es r.chain.distinct in
      let sized =
        int_set_sized-eq (item_size sh' key (length value)) sh' (purge now key es) (view now key es)
          (omega (arith, exact, h)) r' found in
      ap
        (λ x.
          if ltb sh.max_value_bytes (length value) then (sh, counter, some value_too_large) else x)
        (rw (size, old) sized)

-- The part of `cas` and `incr` from the size of the item on, for a write `w`.
module _ (lim : Limits) (now : ℕ) (key : Bytes) (n : ℕ) (sh : Shard) (es : Items)
    (item : StoredItem) (r : Repr lim sh es) (f : find key es ≡ some item)
    (h : length key + n + lim.overhead + lim.max_memory < 2 ^ 63) where
  int_sized-eq :
      {A : Type 0} (refused : A) (w : ℕ → Shard × Result (StoredItem × ℕ) → A)
      → (if int_less sh.max_memory_bytes (int_item_size sh key n)
          then refused
          else w
              (int_item_size sh key n)
              (int_update_room now key (int_item_size sh key n) item sh))
        ≡ (if ltb sh.max_memory_bytes (item_size sh key n)
            then refused
            else w (item_size sh key n) (update_room now key (item_size sh key n) item sh))
  int_sized-eq refused w =
      let size = int_item_size-eq lim sh es key n r h in
      let exact = item_size-eq lim now key sh es r n in
      let test =
        int_less-ltb sh.max_memory_bytes (item_size sh key n) (omega (arith, h, r.memory_limit))
          (omega (arith, exact, h)) in
      elim (Bool-cases (ltb sh.max_memory_bytes (item_size sh key n))) [
        | inl b ↦ rw (size, test, b) refl
        | inr b ↦
            let le = ltb_false→le _ _ b in
            let room =
              int_update_room-eq lim key (item_size sh key n) (omega (arith, le, r.memory_limit))
                (omega (arith, exact, h)) now sh es item r f in
            rw (size, test, b) (ap (w (item_size sh key n)) room)
      ]

length-format_digits :
    (fuel n : ℕ) (rest : Bytes) → length (format_digits fuel n rest) ≤ fuel + length rest
unfolding format_digits
length-format_digits zero n rest = omega arith
length-format_digits (suc fuel) n rest =
    let below = length-format_digits fuel (n / 10) ((48 + n % 10) ∷ rest) in
    elim (Bool-cases (ltb n 10)) [
      | inl t ↦ rw (format_digits, t) (omega arith)
      | inr t ↦ rw (format_digits, t) (omega (arith, below))
    ]

length-format_uint : (n : ℕ) → length (format_uint n) ≤ 20
unfolding format_uint
length-format_uint n = omega (arith, length-format_digits 20 n [])

module _ (lim : Limits) (now : ℕ) (key : Bytes) (counter : ℕ) (sh : Shard) (es : Items)
    (r : Repr lim sh es) where
  pub int_cas-eq :
      (value : Bytes) (ttl : ℤ) (expected : ℕ)
      → length key + length value + lim.overhead + lim.max_memory < 2 ^ 63
      → int_cas now key value ttl expected sh counter ≡ cas now key value ttl expected sh counter
  unfolding int_cas cas int_cas_found cas_found
  int_cas-eq value ttl expected h = elim (Option-cases (item_at sh key)) [
    | inl f ↦ rw (int_cas, cas, f) refl
    | inr (item, f) ↦
        let sized =
          int_sized-eq lim now key (length value) sh es item r (sym (r.found key) ∙ f) h
            (sh, counter, some memory_limit_exceeded)
            (λ size x. cas_write value (expires_at now ttl) size x counter) in
        rw (int_cas, cas, f)
          (ap
            (λ x.
              if ltb sh.max_value_bytes (length value)
              then (sh, counter, some value_too_large)
              else if expired item now
              then (delete_locked item sh, counter, some not_found)
              else if not (item.cas == expected)
              then (sh, counter, some cas_mismatch)
              else x)
            sized)
  ]

  int_incr_parsed-eq :
      (delta : ℕ) (current : Option ℕ) (item : StoredItem)
      → find key es ≡ some item
      → length key + 20 + lim.overhead + lim.max_memory < 2 ^ 63
      → int_incr_parsed now key delta current item sh counter
        ≡ incr_parsed now key delta current item sh counter
  unfolding int_incr_parsed incr_parsed
  int_incr_parsed-eq delta none item f h = refl
  int_incr_parsed-eq delta (some current) item f h =
      let next = add_uint64 current delta in
      let short = length-format_uint next in
      let sized =
        int_sized-eq lim now key (length (format_uint next)) sh es item r f
          (omega (arith, h, short)) (sh, counter, err memory_limit_exceeded)
          (λ size x. incr_write next (format_uint next) size x counter) in
      ap
        (λ x.
          if ltb (max_uint64 - current) delta
          then (sh, counter, err overflow)
          else if ltb sh.max_value_bytes (length (format_uint next))
          then (sh, counter, err value_too_large)
          else x)
        sized

  pub int_incr-eq :
      (delta : ℕ)
      → length key + 20 + lim.overhead + lim.max_memory < 2 ^ 63
      → int_incr now key delta sh counter ≡ incr now key delta sh counter
  unfolding int_incr incr int_incr_found incr_found
  int_incr-eq delta h = elim (Option-cases (item_at sh key)) [
    | inl f ↦ rw (int_incr, incr, f) refl
    | inr (item, f) ↦
        rw (int_incr, incr, f)
          (ap
            (λ x.
              if expired item now
              then (delete_locked item sh, counter, err not_found)
              else if not (is_decimal item.value)
              then (sh, counter, err not_integer)
              else x)
            (int_incr_parsed-eq delta (parse_uint item.value) item (sym (r.found key) ∙ f) h))
  ]
