-- ===== src/Shard/Walk.antt =====
-- internal/store/shard.go: the walk of `evictUntilFitsLocked` from the back of the list to the
-- candidate for eviction.
use mini_key_value_store.Prelude.{
  ℕ, suc, ◌+◌, Option, none, some, if_pos, if_neg, List, [], ◌∷◌, ◌++◌, Bytes, ◌≡◌, ◌≢◌, refl, ap,
  sym, ◌∙◌, subst, arith, Fresh, Distinct-append, Disjoint-cons, erase, length, inl, inr, ◌⊎◌,
}
use mini_key_value_store.Lru.{LruList}
use mini_key_value_store.Lru.Seg.{last, Seg-split, last-append}
use mini_key_value_store.Lru.Chain.{IsChain}
use mini_key_value_store.Item.{StoredItem}
use mini_key_value_store.Recency.{Items, names, find, drop}
use mini_key_value_store.Recency.Laws.{dec, find-drop, names-drop, Distinct-drop}
use mini_key_value_store.Recency.Keep.{last_item, last-names-none, find-last_item}
use mini_key_value_store.Shard.{Shard, walk_back, candidate}
use mini_key_value_store.Shard.Repr.{Limits, Repr}

snoc_cases : (xs : List Bytes) → (xs ≡ []) ⊎ ((ys : List Bytes) × (c : Bytes) × (xs ≡ ys ++ c ∷ []))
snoc_cases [] = inl refl
snoc_cases (x ∷ xs) = elim (snoc_cases xs) [
  | inl e ↦ inr ([], x, ap (◌∷◌ x) e)
  | inr (ys, c, e) ↦ inr (x ∷ ys, c, ap (◌∷◌ x) e)
]

erase-snoc_self : (k : Bytes) (ys : List Bytes) → Fresh k ys → erase dec k (ys ++ k ∷ []) ≡ ys
erase-snoc_self k [] fr = if_pos (dec k k) refl _ _
erase-snoc_self k (y ∷ ys) fr = if_neg (dec k y) fr.0 _ _ ∙ ap (◌∷◌ y) (erase-snoc_self k ys fr.1)

last-erase-snoc :
    (k c : Bytes) (ys : List Bytes) (p : Option Bytes)
    → c ≢ k
    → last p (erase dec k (ys ++ c ∷ [])) ≡ some c
last-erase-snoc k c [] p n = rw (if_neg (dec k c) (λ e. n (sym e)))
last-erase-snoc k c (y ∷ ys) p n = elim (dec k y) [
  | yes e ↦ rw (if_pos (dec k y) e) (last-append p ys (c ∷ []))
  | no m ↦ rw (if_neg (dec k y) m) (last-erase-snoc k c ys (some y) n)
]

last-Fresh_ne : (k c : Bytes) (ys : List Bytes) → Fresh k (ys ++ c ∷ []) → c ≢ k
last-Fresh_ne k c [] fr = λ e. fr.0 (sym e)
last-Fresh_ne k c (y ∷ ys) fr = last-Fresh_ne k c ys fr.1

module _ (l : LruList Bytes) (k : Bytes) where
  -- One step back from an item that is not protected is no step.
  walk_stops : (fuel : ℕ) (c : Bytes) → c ≢ k → walk_back (suc fuel) l k (some c) ≡ some c
  unfolding walk_back
  walk_stops fuel c n = ground arith

  walk_passes : (fuel : ℕ) → walk_back (suc fuel) l k (some k) ≡ walk_back fuel l k (l.links k).prev
  unfolding walk_back
  walk_passes fuel = ground arith

  walk_nil : (fuel : ℕ) → walk_back (suc fuel) l k none ≡ none
  unfolding walk_back
  walk_nil fuel = refl

  -- An item that is not protected, or none, ends the walk.
  walk_rest :
      (fuel : ℕ) (ys : List Bytes)
      → Fresh k ys
      → walk_back (suc fuel) l k (last none ys) ≡ last none ys
  walk_rest fuel ys fr = elim (snoc_cases ys) [
    | inl e ↦ rw e (walk_nil fuel)
    | inr (zs, d, e) ↦
        let n = last-Fresh_ne k d zs (subst (Fresh k) e fr) in
        let q = ap (last none) e ∙ last-append none zs (d ∷ []) in
        ap (walk_back (suc fuel) l k) q ∙ walk_stops fuel d n ∙ sym q
  ]

  module _ (fuel : ℕ) (ys : List Bytes) (b : Bytes) (c : IsChain l (ys ++ b ∷ [])) where
    last_link : (l.tail ≡ some b) × ((l.links b).prev ≡ last none ys) × Fresh b ys
    last_link =
        let (_, _, d) = Distinct-append ys (b ∷ []) c.distinct in
        (
          c.tail ∙ last-append none ys (b ∷ []),
          (Seg-split l.links none none ys (b ∷ []) c.seg).1.0,
          (Disjoint-cons ys b [] d).0,
        )

    walk_back-snoc : walk_back (suc (suc fuel)) l k l.tail ≡ last none (erase dec k (ys ++ b ∷ []))
    walk_back-snoc = elim (dec b k) [
      | no n ↦
          ap (walk_back (suc (suc fuel)) l k) last_link.0
          ∙ walk_stops (suc fuel) b n
          ∙ sym (last-erase-snoc k b ys none n)
      | yes q ↦
          let fr = subst (λ a. Fresh a ys) q last_link.2 in
          ap (walk_back (suc (suc fuel)) l k) (last_link.0 ∙ ap some q)
          ∙ walk_passes (suc fuel)
          ∙ ap (walk_back (suc fuel) l k)
              (subst (λ a. (l.links a).prev ≡ last none ys) q last_link.1)
          ∙ walk_rest fuel ys fr
          ∙ sym (ap (last none) (ap (λ a. erase dec k (ys ++ a ∷ [])) q ∙ erase-snoc_self k ys fr))
    ]

  -- The walk finds the last item other than the protected one.
  walk_back-last :
      (fuel : ℕ) (xs : List Bytes)
      → IsChain l xs
      → walk_back (suc (suc fuel)) l k l.tail ≡ last none (erase dec k xs)
  walk_back-last fuel xs c = elim (snoc_cases xs) [
    | inl e ↦
        ap (walk_back (suc (suc fuel)) l k) (c.tail ∙ ap (last none) e)
        ∙ walk_nil (suc fuel)
        ∙ sym (ap (λ zs. last none (erase dec k zs)) e)
    | inr (ys, b, e) ↦
        walk_back-snoc fuel ys b (subst (IsChain l) e c)
        ∙ sym (ap (λ zs. last none (erase dec k zs)) e)
  ]

module _ (lim : Limits) (k : Bytes) where
  walk_fuel :
      (sh : Shard) (es : Items)
      → Repr lim sh es
      → walk_back (length sh.items + 1) sh.lru k sh.lru.tail ≡ last none (names (drop k es))
  walk_fuel sh [] r =
      rw r.count
        (ap (walk_back 1 sh.lru k) r.chain.tail ∙ walk_nil sh.lru k 0 ∙ (unfold drop in refl))
  walk_fuel sh (x ∷ es) r =
      let q : length sh.items + 1 ≡ suc (suc (length es)) = omega (arith, r.count) in
      ap (λ n. walk_back n sh.lru k sh.lru.tail) q
      ∙ walk_back-last sh.lru k (length es) (names (x ∷ es)) r.chain
      ∙ ap (last none) (sym (names-drop k (x ∷ es)))

  -- The candidate is the least recently used of the other items.
  pub candidate-last_item :
      (sh : Shard) (es : Items) (v : StoredItem)
      → Repr lim sh es
      → last_item (drop k es) ≡ some v
      → (candidate sh k ≡ some v)
        × (find v.key es ≡ some v)
        × (find v.key (drop k es) ≡ some v)
        × (v.key ≢ k)
  unfolding candidate
  candidate-last_item sh es v r h =
      let d = r.chain.distinct in
      let f = find-last_item (drop k es) v (Distinct-drop k es d) h in
      let w = walk_fuel sh es r ∙ last-names-none (drop k es) v h in
      let n : v.key ≢ k =
        λ e. cc (f, find-drop k v.key es d, if_pos (dec v.key k) e none (find v.key es)) in
      let g = sym (if_neg (dec v.key k) n none _) ∙ sym (find-drop k v.key es d) ∙ f in
      (rw (candidate, w) (r.found v.key ∙ g), g, f, n)
