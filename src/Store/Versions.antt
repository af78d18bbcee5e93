-- ===== src/Store/Versions.antt =====
-- internal/store/store.go: the versions of the items along a sequence of calls.
use mini_key_value_store.Prelude.{
  suc, ◌≤◌, Option, none, some, Bytes, ◌≡◌, ◌⊎◌, inl, inr, sym, ◌∙◌, arith,
}
use mini_key_value_store.Item.{StoredItem}
use mini_key_value_store.Shard.{Shard, item_at}
use mini_key_value_store.Store.{Store, shard_for}
use mini_key_value_store.Cache.Stamps.{IsFresh}

-- The item that the store holds under a key, expired or not.
abbrev pub held_in : Bytes → Option Shard → Option StoredItem
held_in k none = none
held_in k (some sh) = item_at sh k

abbrev pub held : Bytes → Store → Option StoredItem
held k s = held_in k (shard_for k s)

-- No item has a version above the counter, and no two have the same.
pub record IsVersioned (s : Store) : Type 0 where
  pub below : (k : Bytes) (e : StoredItem) → held k s ≡ some e → e.cas ≤ s.cas
  pub unique :
      (k j : Bytes) (e f : StoredItem)
      → held k s ≡ some e
      → held j s ≡ some f
      → e.cas ≡ f.cas
      → k ≡ j

-- From `s` to `s'`: an item that is held was held, or is the one under `key`, with the next version.
pub record Advances (key : Bytes) (s s' : Store) : Type 0 where
  pub counter : (s'.cas ≡ s.cas) ⊎ (s'.cas ≡ suc s.cas)
  pub each :
      (k : Bytes) (e : StoredItem)
      → held k s' ≡ some e
      → (held k s ≡ some e) ⊎ IsFresh key s.cas k e s'.cas

module _ (key : Bytes) (s s' : Store) (a : Advances key s s') (v : IsVersioned s) where
  not_less : s.cas ≤ s'.cas
  not_less = elim a.counter [ inl e ↦ omega (arith, e) | inr e ↦ omega (arith, e) ]

  below-Advances : (k : Bytes) (e : StoredItem) → held k s' ≡ some e → e.cas ≤ s'.cas
  below-Advances k e h = elim (a.each k e h) [
    | inl old ↦ omega (arith, v.below k e old, not_less)
    | inr (_, now, c) ↦ omega (arith, now, c)
  ]

  unique-Advances :
      (k j : Bytes) (e f : StoredItem)
      → held k s' ≡ some e
      → held j s' ≡ some f
      → e.cas ≡ f.cas
      → k ≡ j
  unique-Advances k j e f h g same = elim (a.each k e h) [
    | inl old ↦ elim (a.each j f g) [
      | inl old' ↦ v.unique k j e f old old' same
      | inr (_, now, _) ↦ absurd (omega (arith, v.below k e old, now, same))
    ]
    | inr (q, now, _) ↦ elim (a.each j f g) [
      | inl old' ↦ absurd (omega (arith, v.below j f old', now, same))
      | inr (r, _, _) ↦ q ∙ sym r
    ]
  ]

  pub Advances-IsVersioned : IsVersioned s'
  Advances-IsVersioned = record { below = below-Advances; unique = unique-Advances }
