-- ===== src/Shard/Observe.antt =====
-- What a client of one shard can see through `get`: the parts that the theorems share.
pub mod SetGet
pub mod Reads
pub mod Cas
pub mod Incr
use mini_key_value_store.Prelude.{
  ℕ, ◌+◌, ◌≤◌, ◌<◌, Option, none, some, Bytes, Bool, true, false, ◌≡◌, ◌≢◌, ◌⊎◌, inl, inr, refl, ap,
  sym, ◌∙◌, arith, Option-cases, Bool-cases, Distinct,
}
use mini_key_value_store.Item.{StoredItem, Item, expired}
use mini_key_value_store.Recency.{Items, names, find, drop}
use mini_key_value_store.Recency.Laws.{dec}
use mini_key_value_store.Shard.{Shard}
use mini_key_value_store.Shard.Methods.{get}
use mini_key_value_store.Shard.Repr.{Limits, Repr}
use mini_key_value_store.Shard.Refine.{find-purge, view-expired, view-none, view-some}
use mini_key_value_store.Shard.Refine.Reads.{get-Refines}
use mini_key_value_store.Cache
use mini_key_value_store.Cache.{view, purge}
use mini_key_value_store.Cache.Laws.{seen, view-eq, view-purge_other, Fewer}

-- What `get` shows of an item.
abbrev pub shown : Option StoredItem → Option Item
shown none = none
shown (some e) = some (record { value = e.value; cas = e.cas })

pub shown-Fewer : {o p : Option StoredItem} → Fewer o p → (shown o ≡ none) ⊎ (shown o ≡ shown p)
shown-Fewer (inl e) = inl (ap shown e)
shown-Fewer (inr e) = inr (ap shown e)

module _ (lim : Limits) (now : ℕ) (key : Bytes) where
  -- `get` shows what the view has under the key.
  pub get-view :
      (sh : Shard) (es : Items) → Repr lim sh es → (get now key sh).1 ≡ shown (view now key es)
  unfolding Cache.get
  get-view sh es r = (get-Refines lim now key sh es r).1 ∙ get-shown (view now key es) refl
    where
      get-shown :
          (o : Option StoredItem)
          → view now key es ≡ o
          → (Cache.get lim now key es).1 ≡ shown (view now key es)
      get-shown none e = rw (Cache.get, e)
      get-shown (some i) e = rw (Cache.get, e)

-- What has expired stays expired.
expired_later :
    (e : StoredItem) (now now' : ℕ) → now ≤ now' → expired e now ≡ true → expired e now' ≡ true
unfolding expired
expired_later e now now' le h = ground arith

-- A purge changes nothing that can be seen from then on.
pub view-purge :
    (now now' : ℕ) (key j : Bytes) (es : Items)
    → Distinct (names es)
    → now ≤ now'
    → view now' j (purge now key es) ≡ view now' j es
view-purge now now' key j es d le = elim (dec j key) [
  | no n ↦ view-purge_other now key es d now' j n
  | yes q ↦ elim (Option-cases (find key es)) [
    | inl f ↦ ap (view now' j) (view-none now key es f).1
    | inr (e, f) ↦ elim (Bool-cases (expired e now)) [
      | inr x ↦ ap (view now' j) (view-some now key es e f x).1
      | inl x ↦
          let gone =
            ap (λ k. view now' k (purge now key es)) q
            ∙ view-eq now' key (purge now key es)
            ∙ ap (seen now') (find-purge now key es d ∙ (view-expired now key es e f x).0) in
          let stale = (view-expired now' key es e f (expired_later e now now' le x)).0 in
          gone ∙ sym (ap (λ k. view now' k es) q ∙ stale)
    ]
  ]
]
