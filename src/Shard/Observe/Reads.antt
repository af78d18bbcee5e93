-- ===== src/Shard/Observe/Reads.antt =====
-- `get` and `delete` as a client of the shard sees them.
use mini_key_value_store.Prelude.{
  ℕ, ◌≤◌, Option, none, some, ◌∷◌, Bytes, true, ◌≡◌, ◌≢◌, ◌↔◌, inl, inr, refl, ap, sym, ◌∙◌, arith,
  Option-cases, Distinct, if_pos, if_neg,
}
use mini_key_value_store.Item.{StoredItem}
use mini_key_value_store.Recency.{Items, names, find, drop}
use mini_key_value_store.Recency.Laws.{dec, find-key, find-drop, find-touch}
use mini_key_value_store.Shard.{Shard}
use mini_key_value_store.Shard.Methods.{get, delete}
use mini_key_value_store.Shard.Repr.{Limits, IsValid}
use mini_key_value_store.Shard.Refine.Reads.{get-Refines, delete-Refines}
use mini_key_value_store.Shard.Observe.{shown, get-view, view-purge}
use mini_key_value_store.Cache
use mini_key_value_store.Cache.{view, purge}
use mini_key_value_store.Cache.Laws.{seen, view-eq}

module _ (lim : Limits) (now : ℕ) (key : Bytes) where
  -- A visible item is in the list, under its key.
  view-find : (es : Items) (e : StoredItem) → view now key es ≡ some e → find key es ≡ some e
  unfolding view
  view-find es e h = ground arith

  cache_get-find :
      (es : Items) (j : Bytes)
      → Distinct (names es)
      → (o : Option StoredItem) → view now key es ≡ o
      → find j (Cache.get lim now key es).0
        ≡ (elim o [ none ↦ find j (purge now key es) | some _ ↦ find j es ])
  unfolding Cache.get
  cache_get-find es j d none h = rw (Cache.get, h)
  cache_get-find es j d (some e) h =
      let f = view-find es e h in
      let q = find-key key es e f in
      rw (Cache.get, h)
        (ap (λ k. find j (e ∷ drop k es)) (sym q) ∙ find-touch e j es d (ap (λ k. find k es) q ∙ f))

  cache_get-view :
      (es : Items) (now' : ℕ) (j : Bytes)
      → Distinct (names es)
      → now ≤ now'
      → view now' j (Cache.get lim now key es).0 ≡ view now' j es
  cache_get-view es now' j d le = elim (Option-cases (view now key es)) [
    | inl h ↦
        view-eq now' j _
        ∙ ap (seen now') (cache_get-find es j d none h)
        ∙ sym (view-eq now' j (purge now key es))
        ∙ view-purge now now' key j es d le
    | inr (e, h) ↦
        view-eq now' j _
        ∙ ap (seen now') (cache_get-find es j d (some e) h)
        ∙ sym (view-eq now' j es)
  ]

  module _ (sh : Shard) (valid : IsValid lim sh) where
    -- A `get` on a valid shard changes nothing that a `get` at the same time or later reads, under
    -- any key.
    pub get-get :
        (now' : ℕ) (j : Bytes) → now ≤ now' → (get now' j (get now key sh).0).1 ≡ (get now' j sh).1
    get-get now' j le =
        let (es, r) = valid in
        get-view lim now' j _ _ (get-Refines lim now key sh es r).0
        ∙ ap shown (cache_get-view es now' j r.chain.distinct le)
        ∙ sym (get-view lim now' j sh es r)

    deleted_iff :
        (es : Items) → ((Cache.delete lim now key es).1 ≡ true) ↔ (shown (view now key es) ≢ none)
    unfolding Cache.delete
    deleted_iff es = ground arith

    -- On a valid shard, `delete` reports whether the key could be read at that time, and
    -- afterwards the key cannot be read at any time.
    pub get-delete :
        (now' : ℕ)
        → (((delete now key sh).1 ≡ true) ↔ ((get now key sh).1 ≢ none))
          × ((get now' key (delete now key sh).0).1 ≡ none)
    unfolding Cache.delete
    get-delete now' =
        let (es, r) = valid in
        let (r', same) = delete-Refines lim now key sh es r in
        let gone = find-drop key key es r.chain.distinct ∙ if_pos (dec key key) refl none _ in
        (
          rw (same, get-view lim now key sh es r) (deleted_iff es),
          get-view lim now' key _ _ r' ∙ ap shown (view-eq now' key _ ∙ ap (seen now') gone),
        )

    -- A `delete` on a valid shard changes nothing that is read, at any time, under a different
    -- key.
    pub get-delete_other :
        (now' : ℕ) (j : Bytes) → j ≢ key → (get now' j (delete now key sh).0).1 ≡ (get now' j sh).1
    unfolding Cache.delete
    get-delete_other now' j n =
        let (es, r) = valid in
        let (r', same) = delete-Refines lim now key sh es r in
        let kept = find-drop key j es r.chain.distinct ∙ if_neg (dec j key) n none _ in
        get-view lim now' j _ _ r'
        ∙ ap shown (view-eq now' j _ ∙ ap (seen now') kept ∙ sym (view-eq now' j es))
        ∙ sym (get-view lim now' j sh es r)
