-- ===== src/Cache/Stamps.antt =====
-- The versions that the methods of the abstract cache give to items.
use mini_key_value_store.Prelude.{
  ℕ, suc, ◌+◌, ◌<◌, ◌^◌, not, Option, none, some, if_pos, if_neg, ◌∷◌, Bytes, ℤ, ◌≡◌, ◌⊎◌, inl, inr,
  refl, ap, sym, ◌∙◌, arith, Distinct, Bool-cases, Option-cases, if_either, ltb, length, ◌==◌,
}
use mathlib.Core.Option.{some-injective}
use mini_key_value_store.Decimal.{max_uint64, parse_uint, format_uint}
use mini_key_value_store.Item.{StoredItem, StoreError, expired, expires_at, is_decimal, Result}
use mini_key_value_store.Recency.{Items, names, find, drop, live}
use mini_key_value_store.Recency.Laws.{dec, find-key, find-drop, Distinct-drop}
use mini_key_value_store.Shard.{add_uint64}
use mini_key_value_store.Shard.Repr.{Limits}
use mini_key_value_store.Cache.{
  view, purge, item_bytes, write, set, set_sized, get, delete, cas, cas_view, incr, incr_view,
  incr_number, incr_to,
}
use mini_key_value_store.Cache.Laws.{Fewer, Fewer-trans, find-room, Fewer-live}

-- From the items `es` and the counter `c` to `es'` and `c'`: an item that is there was there before, or
-- is the one that was written, with the next version.
abbrev pub IsFresh : Bytes → ℕ → Bytes → StoredItem → ℕ → Type 0
IsFresh key c k e c' = (k ≡ key) × (e.cas ≡ suc c) × (c' ≡ suc c)

pub record Stamped (key : Bytes) (c : ℕ) (es : Items) (c' : ℕ) (es' : Items) : Type 0 where
  pub counter : (c' ≡ c) ⊎ (c' ≡ suc c)
  pub each :
      (k : Bytes) (e : StoredItem)
      → find k es' ≡ some e
      → (find k es ≡ some e) ⊎ IsFresh key c k e c'

abbrev pub Stamps : {A : Type 0} → Bytes → ℕ → Items → Items × ℕ × A → Type 0
Stamps key c es r = Stamped key c es r.1 r.0

some-none : (e : StoredItem) → ◌≡◌ {A = Option StoredItem} (some e) none → ⊥
some-none e q = absurd (cc)

found_before : {o o' : Option StoredItem} (e : StoredItem) → Fewer o' o → o' ≡ some e → o ≡ some e
found_before e (inl gone) f = absurd (some-none e (sym f ∙ gone))
found_before e (inr kept) f = sym kept ∙ f

-- Nothing new.
pub Fewer-Stamped :
    (key : Bytes) (c : ℕ) (es es' : Items)
    → ((k : Bytes) → Fewer (find k es') (find k es))
    → Stamped key c es c es'
Fewer-Stamped key c es es' h = record {
  counter = inl refl;
  each = λ k e f. inl (found_before e (h k) f);
}

module _ (lim : Limits) (now : ℕ) (key : Bytes) (c : ℕ) (few : c + 1 < 2 ^ 64) (es : Items)
    (d : Distinct (names es)) where
  next : add_uint64 c 1 ≡ suc c
  next = omega (arith, few)

  purge-Fewer : (k : Bytes) → Fewer (find k (purge now key es)) (find k es)
  unfolding purge
  purge-Fewer k = ground (arith, find-drop key k es d)

  purge-Distinct : Distinct (names (purge now key es))
  unfolding purge
  purge-Distinct = elim (Option-cases (find key es)) [
    | inl f ↦ rw (purge, f) d
    | inr (e, f) ↦
        rw (purge, f)
          (if_either (λ (xs : Items). Distinct (names xs)) (expired e now) _ _
            (Distinct-drop key es d) d)
  ]

  drop-Fewer : (k : Bytes) → Fewer (find k (drop key es)) (find k es)
  drop-Fewer k = ground (arith, find-drop key k es d)

  -- A write of the next version.
  write-Stamped :
      (value : Bytes) (expiry : ℕ) (es0 : Items)
      → Distinct (names es0)
      → ((k : Bytes) → Fewer (find k es0) (find k es))
      → Stamped key c es (add_uint64 c 1) (write lim now key value expiry (add_uint64 c 1) es0)
  unfolding write find
  write-Stamped value expiry es0 d0 h = record {
    counter = inr next;
    each = λ k e f. elim (dec k key) [
      | yes q ↦
          let new : StoredItem = record {
            key = key;
            value = value;
            expires_at = expiry;
            size = item_bytes lim key value;
            cas = add_uint64 c 1;
          } in
          let same : some new ≡ some e = sym (if_pos (dec k key) q _ _) ∙ f in
          inr (q, ap StoredItem.cas (sym (some-injective new e same)) ∙ next, next)
      | no n ↦
          let size = item_bytes lim key value in
          let left =
            Fewer-trans (find-room lim now key es0 d0 k size)
              (inr (find-drop key k es0 d0 ∙ if_neg (dec k key) n _ _)) in
          inl (found_before e (Fewer-trans left (h k)) (sym (if_neg (dec k key) n _ _) ∙ f))
    ];
  }

  pub set-Stamps : (value : Bytes) (ttl : ℤ) → Stamps key c es (set lim now key value ttl es c)
  unfolding set set_sized
  set-Stamps value ttl =
      let P : Items × ℕ × Option StoreError → Type 0 = Stamps key c es in
      let purged = Fewer-Stamped key c es (purge now key es) purge-Fewer in
      let size = item_bytes lim key value in
      if_either P (ltb lim.max_value (length value)) _ _ (Fewer-Stamped key c es es (λ k. inr refl))
        (if_either P (ltb lim.max_memory size) _ _ purged
          (write-Stamped value (expires_at now ttl) (purge now key es) purge-Distinct purge-Fewer))

  same-Fewer : (k : Bytes) → Fewer (find k es) (find k es)
  same-Fewer k = inr refl

  unchanged : Stamped key c es c es
  unchanged = Fewer-Stamped key c es es same-Fewer

  purged : Stamped key c es c (purge now key es)
  purged = Fewer-Stamped key c es (purge now key es) purge-Fewer

  -- The item that is found goes to the front.
  refresh-Stamped : (e : StoredItem) → find key es ≡ some e → Stamped key c es c (e ∷ drop key es)
  unfolding find
  refresh-Stamped e f = Fewer-Stamped key c es (e ∷ drop key es) (λ k.
      let same = find-key key es e f in
      elim (dec k e.key) [
        | yes q ↦ inr (if_pos (dec k e.key) q _ _ ∙ sym (ap (λ j. find j es) (q ∙ same) ∙ f))
        | no n ↦ inr (
            if_neg (dec k e.key) n _ _
            ∙ find-drop key k es d
            ∙ if_neg (dec k key) (λ q. n (q ∙ sym same)) _ _)
      ])

  pub get-Stamped : Stamped key c es c (get lim now key es).0
  unfolding get view
  get-Stamped = elim (Option-cases (find key es)) [
    | inl f ↦ rw (get, view, f) purged
    | inr (e, f) ↦ elim (Bool-cases (expired e now)) [
      | inl x ↦ rw (get, view, f, x) purged
      | inr x ↦ rw (get, view, f, x) (refresh-Stamped e f)
    ]
  ]

  pub delete-Stamped : Stamped key c es c (delete lim now key es).0
  unfolding delete
  delete-Stamped = Fewer-Stamped key c es (drop key es) drop-Fewer

  cas_view-Stamps :
      (value : Bytes) (ttl : ℤ) (expected : ℕ) (o : Option StoredItem)
      → Stamps key c es (cas_view lim now key value ttl expected o es c)
  unfolding cas_view
  cas_view-Stamps value ttl expected none = purged
  cas_view-Stamps value ttl expected (some e) =
      let P : Items × ℕ × Option StoreError → Type 0 = Stamps key c es in
      if_either P (not (e.cas == expected)) _ _ unchanged (
        if_either P (ltb lim.max_memory (item_bytes lim key value)) _ _ unchanged
          (write-Stamped value (expires_at now ttl) es d same-Fewer))

  pub cas-Stamps :
      (value : Bytes) (ttl : ℤ) (expected : ℕ)
      → Stamps key c es (cas lim now key value ttl expected es c)
  unfolding cas
  cas-Stamps value ttl expected =
      let P : Items × ℕ × Option StoreError → Type 0 = Stamps key c es in
      if_either P (ltb lim.max_value (length value)) _ _ unchanged
        (cas_view-Stamps value ttl expected (view now key es))

  incr_to-Stamps : (n : ℕ) (e : StoredItem) → Stamps key c es (incr_to lim now key n e es c)
  unfolding incr_to
  incr_to-Stamps n e =
      let P : Items × ℕ × Result ℕ → Type 0 = Stamps key c es in
      let value = format_uint n in
      if_either P (ltb lim.max_value (length value)) _ _ unchanged (
        if_either P (ltb lim.max_memory (item_bytes lim key value)) _ _ unchanged
          (write-Stamped value e.expires_at es d same-Fewer))

  incr_number-Stamps :
      (delta : ℕ) (o : Option ℕ) (e : StoredItem)
      → Stamps key c es (incr_number lim now key delta o e es c)
  unfolding incr_number
  incr_number-Stamps delta none e = unchanged
  incr_number-Stamps delta (some current) e =
      let P : Items × ℕ × Result ℕ → Type 0 = Stamps key c es in
      if_either P (ltb max_uint64 (current + delta)) _ _ unchanged
        (incr_to-Stamps (current + delta) e)

  incr_view-Stamps :
      (delta : ℕ) (o : Option StoredItem) → Stamps key c es (incr_view lim now key delta o es c)
  unfolding incr_view
  incr_view-Stamps delta none = purged
  incr_view-Stamps delta (some e) =
      let P : Items × ℕ × Result ℕ → Type 0 = Stamps key c es in
      if_either P (is_decimal e.value) _ _ (incr_number-Stamps delta (parse_uint e.value) e)
        unchanged

  pub incr-Stamps : (delta : ℕ) → Stamps key c es (incr lim now key delta es c)
  unfolding incr
  incr-Stamps delta = incr_view-Stamps delta (view now key es)

-- A sweep leaves no other item.
pub live_found :
    (k : Bytes) (now : ℕ) (es : Items)
    → Distinct (names es)
    → (e : StoredItem) → find k (live now es) ≡ some e
    → find k es ≡ some e
live_found k now es d e f = found_before e (Fewer-live now k es d) f
