-- ===== src/Shard/Observe/Incr.antt =====
-- `incr` as a client of the shard sees it.
use mini_key_value_store.Prelude.{
  ℕ, ◌+◌, ◌≤◌, Option, none, some, Bytes, false, ◌≡◌, inl, inr, ap, sym, ◌∙◌, arith, Option-cases,
}
use mini_key_value_store.Decimal.{max_uint64, parse_uint, format_uint}
use mini_key_value_store.Decimal.Roundtrip.{parse-format_uint}
use mini_key_value_store.Item.{StoredItem, Item, Result, ok, expired}
use mini_key_value_store.Recency.{Items}
use mini_key_value_store.Shard.{Shard, add_uint64}
use mini_key_value_store.Shard.Methods.{get, incr}
use mini_key_value_store.Shard.Repr.{Limits, IsValid}
use mini_key_value_store.Shard.Refine.Incr.{incr-Refines}
use mini_key_value_store.Shard.Observe.{shown, get-view}
use mini_key_value_store.Cache
use mini_key_value_store.Cache.{view, purge, item_bytes, write}
use mini_key_value_store.Cache.Laws.{seen, view-write_self}

-- The number that an item shows.
abbrev pub number_of : Option Item → Option ℕ
number_of none = none
number_of (some i) = parse_uint i.value

module _ (lim : Limits) (now : ℕ) (key : Bytes) (delta counter : ℕ) where
  abbrev cache_incr : Items → Items × ℕ × Result ℕ
  cache_incr es = Cache.incr lim now key delta es counter

  cache_incr_ok :
      (es : Items) (next : ℕ)
      → (cache_incr es).2 ≡ ok next
      → (e : StoredItem) × (current : ℕ) × (view now key es ≡ some e)
        × (parse_uint e.value ≡ some current)
        × (next ≡ current + delta)
        × (next ≤ max_uint64)
        × ((cache_incr es).0
            ≡ write lim now key (format_uint next) e.expires_at (add_uint64 counter 1) es)
  unfolding Cache.incr Cache.incr_view Cache.incr_number Cache.incr_to
  cache_incr_ok es next h = elim (Option-cases (view now key es)) [
    | inl v ↦ absurd (ground arith)
    | inr (e, v) ↦ elim (Option-cases (parse_uint e.value)) [
      | inl p ↦ absurd (ground arith)
      | inr (c, p) ↦ (e, c, v, p, ground arith, ground arith, ground arith)
    ]
  ]

  view-unexpired : (es : Items) (e : StoredItem) → view now key es ≡ some e → expired e now ≡ false
  unfolding view
  view-unexpired es e h = ground arith

  seen_again :
      (e : StoredItem) (value : Bytes) (size c : ℕ)
      → expired e now ≡ false
      → seen now (
          some
            (record { key = key; value = value; expires_at = e.expires_at; size = size; cas = c }))
        ≡ some
            (record { key = key; value = value; expires_at = e.expires_at; size = size; cas = c })
  unfolding expired
  seen_again e value size c h = rw h

  module _ (sh : Shard) (valid : IsValid lim sh) where
    -- An `incr` on a valid shard that returns `next` read a number and added `delta` to it without
    -- passing the last uint64; at the same time the key then reads as the decimal of `next`, with
    -- the version that it was given.
    pub get-incr :
        (next : ℕ)
        → (incr now key delta sh counter).2 ≡ ok next
        → (current : ℕ) × (number_of (get now key sh).1 ≡ some current)
          × (next ≡ current + delta)
          × (next ≤ max_uint64)
          × ((get now key (incr now key delta sh counter).0).1
              ≡ some (record { value = format_uint next; cas = add_uint64 counter 1 }))
          × (number_of (get now key (incr now key delta sh counter).0).1 ≡ some next)
    get-incr next h =
        let (es, r) = valid in
        let q = incr-Refines lim now key counter sh es r delta in
        let (e, c, v, p, sum, le, w) = cache_incr_ok es next (sym q.result ∙ h) in
        let read =
          get-view lim now key (incr now key delta sh counter).0 _ q.repr
          ∙ ap shown (
              ap (view now key) w
              ∙ view-write_self lim now key es r.chain.distinct now (format_uint next) e.expires_at
                  (add_uint64 counter 1)
              ∙ seen_again e (format_uint next) _ (add_uint64 counter 1) (view-unexpired es e v)) in
        (
          c,
          ap number_of (get-view lim now key sh es r ∙ ap shown v) ∙ p,
          sum,
          le,
          read,
          ap number_of read ∙ parse-format_uint next le,
        )
