-- ===== src/Shard/Repr.antt =====
-- A shard represents a list of items: its table holds them, its pointers order them, and its
-- counters agree with them.
use mini_key_value_store.Prelude.{
  ℕ, ◌+◌, ◌≤◌, none, some, ite, Bytes, ◌≡◌, ap, sym, ◌∙◌, arith, Distinct, All, length,
}
use mini_key_value_store.Lru.Chain.{IsChain}
use mini_key_value_store.Lru.Moves.{remove-IsChain}
use mini_key_value_store.Table
use mini_key_value_store.Table.Laws.{lookup-delete, Distinct-delete, length-delete}
use mini_key_value_store.Item.{StoredItem}
use mini_key_value_store.Recency.{Items, names, find, drop, total, timed}
use mini_key_value_store.Recency.Laws.{
  dec, find-Member, names-drop, find-drop, total-drop, timed-drop, length-drop, All-drop,
}
use mini_key_value_store.Shard.{Shard, item_at, delete_locked}

-- The configuration that a shard keeps.
pub record Limits : Type 0 where
  pub max_value : ℕ
  pub max_memory : ℕ
  pub overhead : ℕ

-- An item's size is that of its key and value, with the overhead, and its value is in range.
pub record IsLegal (lim : Limits) (e : StoredItem) : Type 0 where
  pub sized : e.size ≡ length e.key + length e.value + lim.overhead
  pub short : length e.value ≤ lim.max_value

pub record Repr (lim : Limits) (sh : Shard) (es : Items) : Type 0 where
  pub chain : IsChain sh.lru (names es)
  pub found : (k : Bytes) → item_at sh k ≡ find k es
  pub unique : Distinct (Table.keys sh.items)
  pub count : length sh.items ≡ length es
  pub memory : sh.memory_bytes ≡ total es
  pub ttl : sh.ttl_count ≡ timed es
  pub legal : All (IsLegal lim) es
  pub fits : total es ≤ lim.max_memory
  pub value_limit : sh.max_value_bytes ≡ lim.max_value
  pub memory_limit : sh.max_memory_bytes ≡ lim.max_memory
  pub overhead : sh.item_overhead_bytes ≡ lim.overhead

-- The invariant of a shard.
abbrev pub IsValid : Limits → Shard → Type 0
IsValid lim sh = (es : Items) × Repr lim sh es

module _ (lim : Limits) (sh : Shard) (es : Items) where
  -- `delete_locked` of an item that is there takes it out of the view, and nothing else.
  pub delete_locked-Repr :
      (item : StoredItem)
      → Repr lim sh es
      → find item.key es ≡ some item
      → Repr lim (delete_locked item sh) (drop item.key es)
  unfolding delete_locked timed
  delete_locked-Repr item r h = record {
    chain =
        rw names-drop
          (remove-IsChain dec sh.lru item.key (names es) r.chain (find-Member item.key es item h));
    found = λ k.
        lookup-delete dec item.key k sh.items r.unique
        ∙ ap (λ o. ite (dec k item.key) none o) (r.found k)
        ∙ sym (find-drop item.key k es r.chain.distinct);
    unique = Distinct-delete dec item.key sh.items r.unique;
    count = omega (
      arith,
      r.count,
      length-delete dec item.key item sh.items (r.found item.key ∙ h),
      length-drop item.key es item h,
    );
    memory = omega (arith, r.memory, total-drop item.key es item h);
    ttl = ground (arith, r.ttl, timed-drop item.key es item h);
    legal = All-drop (IsLegal lim) item.key es r.legal;
    fits = omega (arith, r.fits, total-drop item.key es item h);
    value_limit = r.value_limit;
    memory_limit = r.memory_limit;
    overhead = r.overhead;
  }

  -- The counters of evictions and expirations are no part of the view.
  pub counters-Repr :
      (evictions expirations : ℕ)
      → Repr lim sh es
      → Repr lim (record sh { evictions = evictions; expirations = expirations }) es
  counters-Repr evictions expirations r = record {
    chain = r.chain;
    found = r.found;
    unique = r.unique;
    count = r.count;
    memory = r.memory;
    ttl = r.ttl;
    legal = r.legal;
    fits = r.fits;
    value_limit = r.value_limit;
    memory_limit = r.memory_limit;
    overhead = r.overhead;
  }
