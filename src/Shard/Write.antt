-- ===== src/Shard/Write.antt =====
-- internal/store/shard.go: the writes of `set`, `cas` and `incr` on the represented list.
use mini_key_value_store.Prelude.{
  ℕ, ◌+◌, ◌≤◌, Option, none, some, ite, ◌∷◌, Bytes, ◌≡◌, ap, sym, ◌∙◌, subst, arith, length,
}
use mini_key_value_store.Lru.Chain.{push_front-IsChain}
use mini_key_value_store.Lru.Moves.{move_to_front-IsChain}
use mini_key_value_store.Table.Laws.{lookup-put, Distinct-put, length-put_new, length-put_old}
use mini_key_value_store.Item.{StoredItem}
use mini_key_value_store.Recency.{Items, names, find, drop, total, timed}
use mini_key_value_store.Recency.Laws.{
  dec, find-key, find-drop, find-Member, Fresh-find, names-drop, length-drop, timed-drop,
  drop_absent, All-drop,
}
use mini_key_value_store.Shard.{Shard}
use mini_key_value_store.Shard.Methods.{rewrite, insert, store_item}
use mini_key_value_store.Shard.Repr.{Limits, IsLegal, Repr}

abbrev pub new_item : Bytes → Bytes → ℕ → ℕ → ℕ → StoredItem
new_item key value expiry size cas = record {
  key = key;
  value = value;
  expires_at = expiry;
  size = size;
  cas = cas;
}

module _ (lim : Limits) (sh : Shard) (es : Items) (r : Repr lim sh es) where
  find-front :
      (item : StoredItem) (j : Bytes)
      → find j (item ∷ drop item.key es) ≡ ite (dec j item.key) (some item) (find j es)
  unfolding find
  find-front item j = ground (arith, find-drop item.key j es r.chain.distinct)

  module _ (key value : Bytes) (expiry size cas projected : ℕ)
      (legal : IsLegal lim (new_item key value expiry size cas))
      (room : projected ≡ total (drop key es) + size) (fits : projected ≤ lim.max_memory) where
    insert-Repr :
        find key es ≡ none
        → Repr lim
            (insert key value expiry size cas projected sh)
            (new_item key value expiry size cas ∷ drop key es)
    unfolding insert total timed
    insert-Repr f = record {
      chain =
          rw (drop_absent key es f)
            (push_front-IsChain dec sh.lru key (names es) r.chain (Fresh-find key es f));
      found = λ j.
          lookup-put dec key j _ sh.items
          ∙ ap (ite (dec j key) _) (r.found j)
          ∙ sym (find-front (new_item key value expiry size cas) j);
      unique = Distinct-put dec key _ sh.items r.unique;
      count = omega (
        arith,
        r.count,
        length-put_new dec key (new_item key value expiry size cas) sh.items (r.found key ∙ f),
        ap (λ (xs : Items). length xs) (drop_absent key es f),
      );
      memory = omega arith;
      ttl = ground (arith, r.ttl, drop_absent key es f);
      legal = (legal, All-drop (IsLegal lim) key es r.legal);
      fits = omega arith;
      value_limit = r.value_limit;
      memory_limit = r.memory_limit;
      overhead = r.overhead;
    }

  rewrite-Repr :
      (old : StoredItem) (value : Bytes) (expiry size cas projected : ℕ)
      → IsLegal lim (new_item old.key value expiry size cas)
      → projected ≡ total (drop old.key es) + size
      → projected ≤ lim.max_memory
      → find old.key es ≡ some old
      → Repr lim
          (rewrite old value expiry size cas projected sh)
          (new_item old.key value expiry size cas ∷ drop old.key es)
  unfolding rewrite total timed
  rewrite-Repr old value expiry size cas projected legal room fits f = record {
    chain = rw names-drop (
        move_to_front-IsChain dec sh.lru old.key (names es) r.chain (find-Member old.key es old f));
    found = λ j.
        lookup-put dec old.key j _ sh.items
        ∙ ap (ite (dec j old.key) _) (r.found j)
        ∙ sym (find-front (new_item old.key value expiry size cas) j);
    unique = Distinct-put dec old.key _ sh.items r.unique;
    count = omega (
      arith,
      r.count,
      length-put_old dec old.key (new_item old.key value expiry size cas) old sh.items
          (r.found old.key ∙ f),
      length-drop old.key es old f,
    );
    memory = omega arith;
    ttl = ground (arith, r.ttl, timed-drop old.key es old f);
    legal = (legal, All-drop (IsLegal lim) old.key es r.legal);
    fits = omega arith;
    value_limit = r.value_limit;
    memory_limit = r.memory_limit;
    overhead = r.overhead;
  }

  -- The item is written under its key, at the front; the others stay.
  pub store_item-Repr :
      (old : Option StoredItem) (key value : Bytes) (expiry size cas projected : ℕ)
      → IsLegal lim (new_item key value expiry size cas)
      → projected ≡ total (drop key es) + size
      → projected ≤ lim.max_memory
      → find key es ≡ old
      → Repr lim
          (store_item old key value expiry size cas projected sh)
          (new_item key value expiry size cas ∷ drop key es)
  unfolding store_item
  store_item-Repr none key value expiry size cas projected legal room fits f =
      insert-Repr key value expiry size cas projected legal room fits f
  store_item-Repr (some old) key value expiry size cas projected legal room fits f =
      let q = sym (find-key key es old f) in
      subst
        (λ j.
          Repr lim (rewrite old value expiry size cas projected sh)
            (new_item j value expiry size cas ∷ drop j es))
        (sym q)
        (rewrite-Repr old value expiry size cas projected
          (subst (λ j. IsLegal lim (new_item j value expiry size cas)) q legal)
          (room ∙ ap (λ j. total (drop j es) + size) q) fits (ap (λ j. find j es) (sym q) ∙ f))
