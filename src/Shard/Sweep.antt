-- ===== src/Shard/Sweep.antt =====
-- internal/store/shard.go: `removeExpiredLocked` and `cleanupExpired` on the represented list.
use mini_key_value_store.Prelude.{
  ℕ, ◌+◌, none, some, if_pos, if_neg, [], ◌∷◌, Bytes, true, false, ◌≡◌, refl, ap, sym, ◌∙◌, subst,
  arith, Fresh, Distinct, length, Bool-cases, inl, inr, ltb,
}
use mini_key_value_store.Table
use mini_key_value_store.Table.{Table, lookup}
use mini_key_value_store.Table.Laws.{lookup-Fresh}
use mini_key_value_store.Item.{StoredItem, expired}
use mini_key_value_store.Recency.{Items, names, find, drop, live}
use mini_key_value_store.Recency.Laws.{dec, find-key, find-drop, length-drop}
use mini_key_value_store.Recency.Live.{live-drop, live_all}
use mini_key_value_store.Shard.{
  Shard, item_at, delete_locked, sweep, count_expirations, cleanup_expired, remove_expired_locked,
}
use mini_key_value_store.Shard.Repr.{Limits, Repr, delete_locked-Repr, counters-Repr}

-- Every entry of `l` is in the view; every expired item of the view is in `l`.
abbrev Agrees : Table Bytes StoredItem → Items → Type 0
Agrees l es = (k : Bytes) (e : StoredItem) → lookup dec k l ≡ some e → find k es ≡ some e

abbrev Covers : ℕ → Table Bytes StoredItem → Items → Type 0
Covers now l es =
    (k : Bytes) (e : StoredItem)
    → find k es ≡ some e
    → expired e now ≡ true
    → lookup dec k l ≡ some e

module _ (k : Bytes) (item : StoredItem) (l : Table Bytes StoredItem) (es : Items) where
  Agrees-head : Agrees ((k, item) ∷ l) es → find k es ≡ some item
  unfolding lookup
  Agrees-head a = a k item (if_pos (dec k k) refl _ _)

  Agrees-tail : Fresh k (Table.keys l) → Agrees ((k, item) ∷ l) es → Agrees l es
  unfolding lookup
  Agrees-tail fr a j e h = elim (dec j k) [
    | yes q ↦ cc (lookup-Fresh dec k l fr, h, q)
    | no q ↦ a j e (if_neg (dec j k) q _ _ ∙ h)
  ]

  Agrees-drop : Fresh k (Table.keys l) → Distinct (names es) → Agrees l es → Agrees l (drop k es)
  Agrees-drop fr d a j e h = elim (dec j k) [
    | yes q ↦ cc (lookup-Fresh dec k l fr, h, q)
    | no q ↦ find-drop k j es d ∙ if_neg (dec j k) q _ _ ∙ a j e h
  ]

  module _ (now : ℕ) where
    Covers-live :
        Agrees ((k, item) ∷ l) es
        → expired item now ≡ false
        → Covers now ((k, item) ∷ l) es
        → Covers now l es
    unfolding lookup
    Covers-live a live c j e h x = elim (dec j k) [
      | yes q ↦ cc (Agrees-head a, h, q)
      | no q ↦ sym (if_neg (dec j k) q _ _) ∙ c j e h x
    ]

    Covers-drop : Distinct (names es) → Covers now ((k, item) ∷ l) es → Covers now l (drop k es)
    unfolding lookup
    Covers-drop d c j e h x = elim (dec j k) [
      | yes q ↦ cc (if_pos (dec j k) q none (find j es), find-drop k j es d, h)
      | no q ↦
          sym (if_neg (dec j k) q _ _)
          ∙ c j e (sym (if_neg (dec j k) q none _) ∙ sym (find-drop k j es d) ∙ h) x
    ]

module _ (lim : Limits) (sh : Shard) (es : Items) where
  pub delete_locked_at :
      (k : Bytes) (item : StoredItem)
      → Repr lim sh es
      → find k es ≡ some item
      → Repr lim (delete_locked item sh) (drop k es)
  delete_locked_at k item r f =
      let q = find-key k es item f in
      subst (λ j. Repr lim (delete_locked item sh) (drop j es)) q
        (delete_locked-Repr lim sh es item r (ap (λ j. find j es) q ∙ f))

module _ (lim : Limits) (now : ℕ) where
  sweep-Repr :
      (l : Table Bytes StoredItem) (removed : ℕ) (sh : Shard) (es : Items)
      → Repr lim sh es
      → Distinct (Table.keys l)
      → Agrees l es
      → Covers now l es
      → Repr lim (sweep now l removed sh).0 (live now es)
        × ((sweep now l removed sh).1 + length (live now es) ≡ removed + length es)
  unfolding sweep
  sweep-Repr [] removed sh es r d a c =
      let all = live_all now es r.chain.distinct (λ k e f x. unfold lookup in cc (c k e f x)) in
      rw all (r, refl)
  sweep-Repr ((k, item) ∷ l) removed sh es r d a c = elim (Bool-cases (expired item now)) [
    | inl x ↦
        let f = Agrees-head k item l es a in
        let r' = delete_locked_at lim sh es k item r f in
        let rest = Covers-drop k item l es now r.chain.distinct c in
        let left = Agrees-drop k item l es d.0 r.chain.distinct (Agrees-tail k item l es d.0 a) in
        let ih = sweep-Repr l (removed + 1) (delete_locked item sh) (drop k es) r' d.1 left rest in
        let ih' = rw (live-drop now k es item f x) at ih in
        rw (x, sweep) (ih'.0, omega (arith, ih'.1, length-drop k es item f))
    | inr x ↦
        rw (x, sweep)
          (sweep-Repr l removed sh es r d.1 (Agrees-tail k item l es d.0 a)
            (Covers-live k item l es now a x c))
  ]

  count_expirations-Repr :
      (n : ℕ) (sh : Shard) (es : Items) → Repr lim sh es → Repr lim (count_expirations n sh) es
  unfolding count_expirations
  count_expirations-Repr n sh es r = elim (Bool-cases (ltb 0 n)) [
    | inl e ↦ rw (e, count_expirations) (counters-Repr lim sh es sh.evictions _ r)
    | inr e ↦ rw (e, count_expirations) r
  ]

  module _ (sh : Shard) (es : Items) (r : Repr lim sh es) where
    sweep_all-Repr :
        Repr lim (sweep now sh.items 0 sh).0 (live now es)
        × ((sweep now sh.items 0 sh).1 + length (live now es) ≡ length es)
    sweep_all-Repr =
        let (l, n) =
          sweep-Repr sh.items 0 sh es r r.unique (λ k e h. sym (r.found k) ∙ h)
            (λ k e h x. r.found k ∙ h) in
        (l, omega (arith, n))

    pub remove_expired_locked-Repr : Repr lim (remove_expired_locked now sh) (live now es)
    unfolding remove_expired_locked
    remove_expired_locked-Repr = count_expirations-Repr _ _ _ sweep_all-Repr.0

    -- From a shard that represents a list of items, the sweep of the background cleaner leaves
    -- exactly the items that have not expired, in their order of use, and returns how many it
    -- deleted.
    pub cleanup_expired-Repr :
        Repr lim (cleanup_expired now sh).0 (live now es)
        × ((cleanup_expired now sh).1 + length (live now es) ≡ length es)
    unfolding cleanup_expired
    cleanup_expired-Repr = (count_expirations-Repr _ _ _ sweep_all-Repr.0, sweep_all-Repr.1)

    -- The sweep of a shard that represents a list of items does not depend on the order in which
    -- it walks the map: from any table with the same entries, each once, it leaves a shard that
    -- represents the same list of live items, and counts as many deletions.
    pub sweep_order_lem :
        (l : Table Bytes StoredItem)
        → Distinct (Table.keys l)
        → ((k : Bytes) → lookup dec k l ≡ item_at sh k)
        → Repr lim (sweep now l 0 sh).0 (live now es)
          × Repr lim (sweep now sh.items 0 sh).0 (live now es)
          × ((sweep now l 0 sh).1 ≡ (sweep now sh.items 0 sh).1)
    sweep_order_lem l d same =
        let (a, m) = sweep_all-Repr in
        let (b, n) =
          sweep-Repr l 0 sh es r d (λ k e h. sym (r.found k) ∙ sym (same k) ∙ h)
            (λ k e h x. same k ∙ r.found k ∙ h) in
        (b, a, omega (arith, m, n))
