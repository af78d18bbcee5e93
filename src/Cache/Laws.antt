-- ===== src/Cache/Laws.antt =====
-- What can be seen of the abstract cache after a write.
use mini_key_value_store.Prelude.{
  ℕ, ◌+◌, ◌-◌, ◌<◌, Option, none, some, if_pos, if_neg, [], ◌∷◌, Bytes, ◌≡◌, ◌≢◌, ◌⊎◌, inl, inr,
  refl, ap, sym, ◌∙◌, arith, Distinct, Bool-cases, leb, if◌then◌else◌,
}
use mini_key_value_store.Item.{StoredItem, expired}
use mini_key_value_store.Recency.{Items, names, find, drop, total, keep, live, room}
use mini_key_value_store.Recency.Laws.{dec, find-drop, Distinct-drop}
use mini_key_value_store.Recency.Live.{find-live}
use mini_key_value_store.Shard.Repr.{Limits}
use mini_key_value_store.Cache.{view, purge, item_bytes, write}

-- An item is gone, or it is as it was.
abbrev pub Fewer : Option StoredItem → Option StoredItem → Type 0
Fewer o p = (o ≡ none) ⊎ (o ≡ p)

pub Fewer-trans : {a b c : Option StoredItem} → Fewer a b → Fewer b c → Fewer a c
Fewer-trans (inl e) q = inl e
Fewer-trans (inr e) (inl f) = inl (e ∙ f)
Fewer-trans (inr e) (inr f) = inr (e ∙ f)

find-keep : (j : Bytes) (budget : ℕ) (es : Items) → Fewer (find j (keep budget es)) (find j es)
unfolding find keep
find-keep j budget [] = inl refl
find-keep j budget (x ∷ es) = ground (arith, find-keep j (budget - x.size) es)

pub Fewer-live :
    (now : ℕ) (j : Bytes) (es : Items)
    → Distinct (names es)
    → Fewer (find j (live now es)) (find j es)
Fewer-live now j es d = ground (arith, find-live now j es d)

-- The visible item under a key, from what is found.
abbrev pub seen : ℕ → Option StoredItem → Option StoredItem
seen now none = none
seen now (some e) = if expired e now then none else some e

pub view-eq : (now : ℕ) (j : Bytes) (es : Items) → view now j es ≡ seen now (find j es)
unfolding view
view-eq now j es = ground arith

seen-Fewer : (now : ℕ) {o p : Option StoredItem} → Fewer o p → Fewer (seen now o) (seen now p)
seen-Fewer now (inl e) = inl (ap (seen now) e)
seen-Fewer now (inr e) = inr (ap (seen now) e)

module _ (lim : Limits) (now : ℕ) (key : Bytes) (es : Items) (d : Distinct (names es)) where
  pub find-room :
      (j : Bytes) (size : ℕ)
      → Fewer (find j (room now lim.max_memory size (drop key es))) (find j (drop key es))
  unfolding room
  find-room j size = elim (Bool-cases (leb (total (drop key es) + size) lim.max_memory)) [
    | inl t ↦ rw (room, t) (inr refl)
    | inr t ↦
        rw (room, t)
          (Fewer-trans (find-keep j (lim.max_memory - size) (live now (drop key es)))
            (Fewer-live now j (drop key es) (Distinct-drop key es d)))
  ]

  -- After a write another key is seen as before, or it was evicted or removed as expired.
  pub view-write_other :
      (now' : ℕ) (j value : Bytes) (expiry cas : ℕ)
      → j ≢ key
      → Fewer (view now' j (write lim now key value expiry cas es)) (view now' j es)
  unfolding write find
  view-write_other now' j value expiry cas n =
      rw (view-eq now' j (write lim now key value expiry cas es), view-eq now' j es)
        (seen-Fewer now' (
          rw (if_neg (dec j key) n) (
            Fewer-trans (find-room j (item_bytes lim key value))
              (inr (find-drop key j es d ∙ if_neg (dec j key) n _ _)))))

  -- The written key is seen with the written value, until it expires.
  pub view-write_self :
      (now' : ℕ) (value : Bytes) (expiry cas : ℕ)
      → view now' key (write lim now key value expiry cas es)
        ≡ seen now' (
            some (record {
              key = key;
              value = value;
              expires_at = expiry;
              size = item_bytes lim key value;
              cas = cas;
            }))
  unfolding write find
  view-write_self now' value expiry cas =
      view-eq now' key (write lim now key value expiry cas es)
      ∙ ap (seen now') (if_pos (dec key key) refl _ _)

module _ (now : ℕ) (key : Bytes) (es : Items) (d : Distinct (names es)) where
  pub find-purge_other : (j : Bytes) → j ≢ key → find j (purge now key es) ≡ find j es
  unfolding purge
  find-purge_other j n = ground (arith, find-drop key j es d)

  -- A purge changes nothing that can be seen at that time, and no other key.
  pub view-purge_other :
      (now' : ℕ) (j : Bytes) → j ≢ key → view now' j (purge now key es) ≡ view now' j es
  view-purge_other now' j n =
      view-eq now' j _ ∙ ap (seen now') (find-purge_other j n) ∙ sym (view-eq now' j es)

pub seen_live :
    (now expiry : ℕ) (key value : Bytes) (size cas : ℕ)
    → (expiry ≡ 0) ⊎ (now < expiry)
    → let e : StoredItem = record {
      key = key;
      value = value;
      expires_at = expiry;
      size = size;
      cas = cas;
    } in
      seen now (some e) ≡ some e
unfolding expired
seen_live now expiry key value size cas h = ground arith
