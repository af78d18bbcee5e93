-- ===== src/Recency/Laws.antt =====
-- What `find`, `total` and `timed` say of a list without one of its items.
use mini_key_value_store.Prelude.{
  ◌+◌, ◌≤◌, none, some, ite, if_pos, if_neg, [], ◌∷◌, Bytes, bytes_discrete, ◌≡◌, refl, ap, sym,
  ◌∙◌, subst, arith, Fresh, Distinct, Member, erase, All, length,
}
use mini_key_value_store.Item.{StoredItem}
use mini_key_value_store.Recency.{Items, names, find, drop, total, timed}

abbrev pub dec : Discrete Bytes
dec = bytes_discrete

pub find-key : (k : Bytes) (es : Items) (e : StoredItem) → find k es ≡ some e → e.key ≡ k
unfolding find
find-key k [] e h = cc
find-key k (x ∷ es) e h = ground (arith, find-key k es e)

pub Fresh-find : (k : Bytes) (es : Items) → find k es ≡ none → Fresh k (names es)
unfolding find
Fresh-find k [] h = tt
Fresh-find k (x ∷ es) h = ground (arith, Fresh-find k es)

pub find-Fresh : (k : Bytes) (es : Items) → Fresh k (names es) → find k es ≡ none
unfolding find
find-Fresh k [] h = refl
find-Fresh k (x ∷ es) h = ground (arith, find-Fresh k es h.1)

pub find-Member :
    (k : Bytes) (es : Items) (e : StoredItem) → find k es ≡ some e → Member k (names es)
find-Member k es e h = λ fr. cc (h, find-Fresh k es fr)

pub names-drop : (k : Bytes) (es : Items) → names (drop k es) ≡ erase dec k (names es)
unfolding drop
names-drop k [] = refl
names-drop k (x ∷ es) = ground (arith, names-drop k es)

pub find-drop :
    (k j : Bytes) (es : Items)
    → Distinct (names es)
    → find j (drop k es) ≡ ite (dec j k) none (find j es)
unfolding find drop
find-drop k j [] d = ground arith
find-drop k j (x ∷ es) d = ground (arith, find-drop k j es d.1, find-Fresh x.key es d.0)

-- An item put back in front of the others is found as before.
pub find-touch :
    (item : StoredItem) (j : Bytes) (es : Items)
    → Distinct (names es)
    → find item.key es ≡ some item
    → find j (item ∷ drop item.key es) ≡ find j es
unfolding find
find-touch item j es d f = elim (dec j item.key) [
  | yes q ↦ if_pos (dec j item.key) q _ _ ∙ sym (ap (λ k. find k es) q ∙ f)
  | no q ↦ if_neg (dec j item.key) q _ _ ∙ find-drop item.key j es d ∙ if_neg (dec j item.key) q _ _
]

pub drop_absent : (k : Bytes) (es : Items) → find k es ≡ none → drop k es ≡ es
unfolding find drop
drop_absent k [] h = refl
drop_absent k (x ∷ es) h = ground (arith, drop_absent k es)

pub total-drop :
    (k : Bytes) (es : Items) (e : StoredItem)
    → find k es ≡ some e
    → total es ≡ e.size + total (drop k es)
unfolding find drop total
total-drop k [] e h = cc
total-drop k (x ∷ es) e h = ground (arith, total-drop k es e)

pub timed-drop :
    (k : Bytes) (es : Items) (e : StoredItem)
    → find k es ≡ some e
    → timed es ≡ timed (e ∷ []) + timed (drop k es)
unfolding find drop timed
timed-drop k [] e h = cc
timed-drop k (x ∷ es) e h = ground (arith, timed-drop k es e)

pub length-drop :
    (k : Bytes) (es : Items) (e : StoredItem)
    → find k es ≡ some e
    → length es ≡ length (drop k es) + 1
unfolding find drop
length-drop k [] e h = cc
length-drop k (x ∷ es) e h = ground (arith, length-drop k es e)

pub length-drop-le : (k : Bytes) (es : Items) → length (drop k es) ≤ length es
unfolding drop
length-drop-le k [] = omega arith
length-drop-le k (x ∷ es) = ground (arith, length-drop-le k es)

pub All-drop : (P : StoredItem → Type 0) (k : Bytes) (es : Items) → All P es → All P (drop k es)
unfolding drop
All-drop P k [] a = tt
All-drop P k (x ∷ es) a = elim (dec k x.key) [
  | yes y ↦ rw (if_pos (dec k x.key) y) a.1
  | no n ↦ rw (if_neg (dec k x.key) n) (a.0, All-drop P k es a.1)
]

pub Fresh-drop : (j k : Bytes) (es : Items) → Fresh j (names es) → Fresh j (names (drop k es))
unfolding drop
Fresh-drop j k [] fr = tt
Fresh-drop j k (x ∷ es) fr = ground (arith, Fresh-drop j k es fr.1)

pub Distinct-drop : (k : Bytes) (es : Items) → Distinct (names es) → Distinct (names (drop k es))
unfolding drop
Distinct-drop k [] d = tt
Distinct-drop k (x ∷ es) d = ground (arith, Distinct-drop k es d.1, Fresh-drop x.key k es d.0)

pub All-find :
    (P : StoredItem → Type 0) (k : Bytes) (es : Items) (e : StoredItem)
    → All P es
    → find k es ≡ some e
    → P e
unfolding find
All-find P k [] e a h = cc
All-find P k (x ∷ es) e a h = elim (dec k x.key) [
  | yes y ↦ let q : x ≡ e = ground arith in subst P q a.0
  | no n ↦ All-find P k es e a.1 (ground arith)
]
