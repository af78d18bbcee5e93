-- ===== src/Recency/Keep.antt =====
-- The eviction on the abstract list: the last items go until the others fit. It is about
-- `evictUntilFitsLocked` of internal/store/shard.go.
use mini_key_value_store.Prelude.{
  ℕ, ◌-◌, ◌≤◌, ◌<◌, Option, none, some, if_neg, [], ◌∷◌, Bytes, ◌≡◌, ◌≢◌, refl, ◌∙◌, subst, arith,
  Fresh, Distinct,
}
use mini_key_value_store.Lru.Seg.{last}
use mini_key_value_store.Item.{StoredItem}
use mini_key_value_store.Recency.{Items, names, find, drop, total, keep}
use mini_key_value_store.Recency.Laws.{dec}

-- The least recently used item.
abbrev pub last_item : Items → Option StoredItem
last_item [] = none
last_item (x ∷ []) = some x
last_item (x ∷ y ∷ es) = last_item (y ∷ es)

last_item-some : (x : StoredItem) (es : Items) → (v : StoredItem) × (last_item (x ∷ es) ≡ some v)
last_item-some x [] = (x, refl)
last_item-some x (y ∷ es) = last_item-some y es

pub last-names :
    (x : StoredItem) (es : Items) (v : StoredItem) (p : Option Bytes)
    → last_item (x ∷ es) ≡ some v
    → last p (names (x ∷ es)) ≡ some v.key
last-names x [] v p h = cc
last-names x (y ∷ es) v p h = last-names y es v (some x.key) h

pub last_item_of_total : (es : Items) → 0 < total es → (v : StoredItem) × (last_item es ≡ some v)
unfolding total
last_item_of_total [] h = absurd (omega arith)
last_item_of_total (x ∷ es) h = last_item-some x es

pub last-names-none :
    (es : Items) (v : StoredItem) → last_item es ≡ some v → last none (names es) ≡ some v.key
last-names-none [] v h = cc
last-names-none (x ∷ es) v h = last-names x es v none h

last_item-ne :
    (k : Bytes) (x : StoredItem) (es : Items) (v : StoredItem)
    → Fresh k (names (x ∷ es))
    → last_item (x ∷ es) ≡ some v
    → v.key ≢ k
last_item-ne k x [] v fr h = λ e. fr.0 (cc)
last_item-ne k x (y ∷ es) v fr h = last_item-ne k y es v fr.1 h

pub find-last_item :
    (es : Items) (v : StoredItem)
    → Distinct (names es)
    → last_item es ≡ some v
    → find v.key es ≡ some v
unfolding find
find-last_item [] v d h = cc
find-last_item (x ∷ []) v d h = ground arith
find-last_item (x ∷ y ∷ es) v d h =
    if_neg (dec v.key x.key) (last_item-ne x.key y es v d.0 h) _ _ ∙ find-last_item (y ∷ es) v d.1 h

-- Items that fit are all kept.
pub keep_all : (budget : ℕ) (es : Items) → total es ≤ budget → keep budget es ≡ es
unfolding keep total
keep_all budget [] h = refl
keep_all budget (x ∷ es) h = ground (arith, keep_all (budget - x.size) es)

pub total-keep : (budget : ℕ) (es : Items) → total (keep budget es) ≤ budget
unfolding keep total
total-keep budget [] = omega arith
total-keep budget (x ∷ es) = ground (arith, total-keep (budget - x.size) es)

-- Otherwise the last one is not.
pub keep-drop_last :
    (budget : ℕ) (es : Items) (v : StoredItem)
    → Distinct (names es)
    → last_item es ≡ some v
    → budget < total es
    → keep budget (drop v.key es) ≡ keep budget es
unfolding keep total drop
keep-drop_last budget [] v d h lt = cc
keep-drop_last budget (x ∷ []) v d h lt = ground arith
keep-drop_last budget (x ∷ y ∷ es) v d h lt =
    rw (if_neg (dec v.key x.key) (last_item-ne x.key y es v d.0 h))
      (ground (arith, keep-drop_last (budget - x.size) (y ∷ es) v d.1 h))

pub drop-drop : (j k : Bytes) (es : Items) → drop j (drop k es) ≡ drop k (drop j es)
unfolding drop
drop-drop j k [] = refl
drop-drop j k (x ∷ es) = elim (dec j k) [
  | yes e ↦ subst (λ i. drop j (drop i (x ∷ es)) ≡ drop i (drop j (x ∷ es))) e refl
  | no n ↦ ground (arith, drop-drop j k es)
]
