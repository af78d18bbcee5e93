-- ===== src/Shard/Refine.antt =====
-- What it means that a method refines the abstract cache, and the parts that the methods share.
pub mod Set
pub mod Reads
pub mod Updates
pub mod Incr
use mini_key_value_store.Prelude.{
  ℕ, zero, suc, ◌+◌, ◌-◌, ◌≤◌, ◌<◌, Option, none, some, ite, if_pos, if_neg, List, [], ◌∷◌, Bytes,
  Bool, true, false, ◌≡◌, ◌≢◌, refl, ap, sym, ◌∙◌, subst, arith, Distinct, length, Bool-cases,
  Option-cases, inl, inr, ltb, leb, ltb→lt, ltb_false→le, le→leb, lt→leb_false, if◌then◌else◌,
}
use mini_key_value_store.Item.{StoredItem, expired}
use mini_key_value_store.Recency.{Items, names, find, drop}
use mini_key_value_store.Recency.Laws.{dec, find-drop}
use mini_key_value_store.Shard.{Shard, item_at, delete_locked, item_size}
use mini_key_value_store.Shard.Methods.{drop_stale, size_of}
use mini_key_value_store.Shard.Repr.{Limits, Repr}
use mini_key_value_store.Shard.Sweep.{delete_locked_at}
use mini_key_value_store.Shard.Room.{IsLive}
use mini_key_value_store.Cache.{view, purge}

-- The shard after a call represents the cache after it, and the counter and the result agree.
pub record Refines {A : Type 0} (lim : Limits) (c : Shard × ℕ × A) (s : Items × ℕ × A)
    : Type 0 where
  pub repr : Repr lim c.0 s.0
  pub counter : c.1 ≡ s.1
  pub result : c.2 ≡ s.2

module _ (now : ℕ) (key : Bytes) (es : Items) where
  pub view-IsLive : IsLive now (view now key es)
  unfolding view
  view-IsLive = elim (Option-cases (find key es)) [
    | inl f ↦ rw (f, view) tt
    | inr (e, f) ↦ elim (Bool-cases (expired e now)) [
      | inl x ↦ rw (f, view, x) tt
      | inr x ↦ rw (f, view, x) x
    ]
  ]

  pub find-purge : Distinct (names es) → find key (purge now key es) ≡ view now key es
  unfolding purge view
  find-purge d =
      ground (arith, find-drop key key es d, if_pos (dec key key) refl none (find key es))

  -- What a lookup that is not expired finds.
  pub view-some :
      (e : StoredItem)
      → find key es ≡ some e
      → expired e now ≡ false
      → (view now key es ≡ some e) × (purge now key es ≡ es)
  unfolding view purge
  view-some e f x = (rw (f, view, x), rw (f, purge, x))

  pub view-expired :
      (e : StoredItem)
      → find key es ≡ some e
      → expired e now ≡ true
      → (view now key es ≡ none) × (purge now key es ≡ drop key es)
  unfolding view purge
  view-expired e f x = (rw (f, view, x), rw (f, purge, x))

  pub view-none : find key es ≡ none → (view now key es ≡ none) × (purge now key es ≡ es)
  unfolding view purge
  view-none f = (rw (f, view), rw (f, purge))

module _ (lim : Limits) (now : ℕ) (key : Bytes) (sh : Shard) (es : Items) (r : Repr lim sh es) where
  pub drop_stale-Repr :
      Repr lim (drop_stale now (item_at sh key) sh).0 (purge now key es)
      × ((drop_stale now (item_at sh key) sh).1 ≡ size_of (view now key es))
  unfolding drop_stale
  drop_stale-Repr = elim (Option-cases (find key es)) [
    | inl f ↦ let (v, p) = view-none now key es f in rw (r.found key, f, drop_stale, v, p) (r, refl)
    | inr (e, f) ↦ elim (Bool-cases (expired e now)) [
      | inl x ↦
          let (v, p) = view-expired now key es e f x in
          rw (r.found key, f, drop_stale, x, v, p) (delete_locked_at lim sh es key e r f, refl)
      | inr x ↦
          let (v, p) = view-some now key es e f x in
          rw (r.found key, f, drop_stale, x, v, p) (r, refl)
    ]
  ]

  pub item_size-eq : (n : ℕ) → item_size sh key n ≡ length key + n + lim.overhead
  unfolding item_size
  item_size-eq n = ap (λ o. length key + n + o) r.overhead
