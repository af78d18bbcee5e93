-- ===== src/Shard/Refine/Reads.antt =====
-- internal/store/shard.go: `get` and `delete` and the abstract cache.
use mini_key_value_store.Prelude.{
  ℕ, some, ◌∷◌, Bytes, ◌≡◌, refl, ap, sym, ◌∙◌, subst, Bool-cases, Option-cases, inl, inr, arith,
}
use mini_key_value_store.Lru
use mini_key_value_store.Lru.Moves.{move_to_front-IsChain}
use mini_key_value_store.Item.{StoredItem, expired}
use mini_key_value_store.Recency.{Items, names, find, drop, total, timed}
use mini_key_value_store.Recency.Laws.{
  dec, find-key, find-Member, find-touch, names-drop, length-drop, total-drop, timed-drop, All-drop,
  All-find, drop_absent,
}
use mini_key_value_store.Shard.{Shard}
use mini_key_value_store.Shard.Methods.{get, delete}
use mini_key_value_store.Shard.Repr.{Limits, IsLegal, Repr}
use mini_key_value_store.Shard.Sweep.{delete_locked_at}
use mini_key_value_store.Shard.Refine.{view-some, view-expired, view-none}
use mini_key_value_store.Cache
use mini_key_value_store.Cache.{view, purge}

module _ (lim : Limits) (now : ℕ) (key : Bytes) (sh : Shard) (es : Items) (r : Repr lim sh es) where
  -- Moving a found item to the front of the pointers moves it to the front of the view.
  touch-Repr :
      (item : StoredItem)
      → find item.key es ≡ some item
      → Repr lim
          (record sh { lru = Lru.move_to_front dec sh.lru item.key })
          (item ∷ drop item.key es)
  unfolding total timed
  touch-Repr item f = record {
    chain = rw names-drop (
        move_to_front-IsChain dec sh.lru item.key (names es) r.chain
          (find-Member item.key es item f));
    found = λ j. r.found j ∙ sym (find-touch item j es r.chain.distinct f);
    unique = r.unique;
    count = omega (arith, r.count, length-drop item.key es item f);
    memory = omega (arith, r.memory, total-drop item.key es item f);
    ttl = omega (arith, r.ttl, timed-drop item.key es item f);
    legal = (
      All-find (IsLegal lim) item.key es item r.legal f,
      All-drop (IsLegal lim) item.key es r.legal,
    );
    fits = omega (arith, r.fits, total-drop item.key es item f);
    value_limit = r.value_limit;
    memory_limit = r.memory_limit;
    overhead = r.overhead;
  }

  touch-Repr_at :
      (item : StoredItem)
      → find key es ≡ some item
      → Repr lim (record sh { lru = Lru.move_to_front dec sh.lru item.key }) (item ∷ drop key es)
  touch-Repr_at item f =
      let q = find-key key es item f in
      subst
        (λ k.
          Repr lim (record sh { lru = Lru.move_to_front dec sh.lru item.key }) (item ∷ drop k es))
        q (touch-Repr item (ap (λ k. find k es) q ∙ f))

  -- From a shard that represents a list of items, `get` leaves one that represents the list after
  -- the abstract `get`, and shows the same item or none.
  pub get-Refines :
      Repr lim (get now key sh).0 (Cache.get lim now key es).0
      × ((get now key sh).1 ≡ (Cache.get lim now key es).1)
  unfolding get Cache.get
  get-Refines = elim (Option-cases (find key es)) [
    | inl f ↦
        let (v, p) = view-none now key es f in rw (get, r.found key, f, Cache.get, v, p) (r, refl)
    | inr (e, f) ↦ elim (Bool-cases (expired e now)) [
      | inl x ↦
          let (v, p) = view-expired now key es e f x in
          rw (get, r.found key, f, x, Cache.get, v, p) (delete_locked_at lim sh es key e r f, refl)
      | inr x ↦
          let (v, p) = view-some now key es e f x in
          rw (get, r.found key, f, x, Cache.get, v) (touch-Repr_at e f, refl)
    ]
  ]

  -- From a shard that represents a list of items, `delete` leaves one that represents the list
  -- after the abstract `delete`, and returns the same answer.
  pub delete-Refines :
      Repr lim (delete now key sh).0 (Cache.delete lim now key es).0
      × ((delete now key sh).1 ≡ (Cache.delete lim now key es).1)
  unfolding delete Cache.delete
  delete-Refines = elim (Option-cases (find key es)) [
    | inl f ↦
        let (v, p) = view-none now key es f in
        rw (delete, r.found key, f, Cache.delete, v, drop_absent key es f) (r, refl)
    | inr (e, f) ↦ elim (Bool-cases (expired e now)) [
      | inl x ↦
          let (v, p) = view-expired now key es e f x in
          rw (delete, r.found key, f, x, Cache.delete, v)
            (delete_locked_at lim sh es key e r f, refl)
      | inr x ↦
          let (v, p) = view-some now key es e f x in
          rw (delete, r.found key, f, x, Cache.delete, v)
            (delete_locked_at lim sh es key e r f, refl)
    ]
  ]
