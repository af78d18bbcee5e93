-- ===== src/Recency/Live.antt =====
-- The items that have not expired.
use mini_key_value_store.Prelude.{
  ℕ, ◌≤◌, none, some, if_pos, if_neg, [], ◌∷◌, Bytes, true, ◌≡◌, ◌≢◌, refl, ◌∙◌, arith, Fresh,
  Distinct, if◌then◌else◌,
}
use mini_key_value_store.Item.{StoredItem, expired}
use mini_key_value_store.Recency.{Items, names, find, drop, total, timed, live}
use mini_key_value_store.Recency.Laws.{dec, find-Fresh, drop_absent}

module _ (now : ℕ) where
  -- An expired item can be dropped before.
  pub live-drop :
      (k : Bytes) (es : Items) (e : StoredItem)
      → find k es ≡ some e
      → expired e now ≡ true
      → live now (drop k es) ≡ live now es
  unfolding live drop find
  live-drop k [] e h x = cc
  live-drop k (y ∷ es) e h x = ground (arith, live-drop k es e)

  pub live_all :
      (es : Items)
      → Distinct (names es)
      → ((k : Bytes) (e : StoredItem) → find k es ≡ some e → expired e now ≢ true)
      → live now es ≡ es
  unfolding live find
  live_all [] d h = refl
  live_all (y ∷ es) d h =
      let fresh = h y.key y (if_pos (dec y.key y.key) refl _ _) in
      let rest = live_all es d.1 (λ k e f. h k e (elim (dec k y.key) [
        | yes q ↦ cc (find-Fresh y.key es d.0, f, q)
        | no q ↦ if_neg (dec k y.key) q _ _ ∙ f
      ])) in
      ground arith

  pub Fresh-live : (k : Bytes) (es : Items) → Fresh k (names es) → Fresh k (names (live now es))
  unfolding live
  Fresh-live k [] fr = tt
  Fresh-live k (y ∷ es) fr = ground (arith, Fresh-live k es fr.1)

  -- A lookup among the live items misses the expired ones.
  pub find-live :
      (k : Bytes) (es : Items)
      → Distinct (names es)
      → find k (live now es)
        ≡ (elim (find k es) [ none ↦ none | some e ↦ if expired e now then none else some e ])
  unfolding live find
  find-live k [] d = refl
  find-live k (y ∷ es) d =
      ground (arith, find-live k es d.1, find-Fresh k es, find-Fresh k (live now es))

  pub drop-live :
      (k : Bytes) (es : Items) → Distinct (names es) → drop k (live now es) ≡ live now (drop k es)
  unfolding live drop
  drop-live k [] d = refl
  drop-live k (y ∷ es) d = ground (
    arith,
    drop-live k es d.1,
    drop_absent y.key (live now es) (find-Fresh y.key _ (Fresh-live y.key es d.0)),
  )

  -- Where no item can expire, all are live.
  pub live_timeless : (es : Items) → timed es ≡ 0 → live now es ≡ es
  unfolding live timed expired
  live_timeless [] h = refl
  live_timeless (y ∷ es) h = ground (arith, live_timeless es)

  pub total-live : (es : Items) → total (live now es) ≤ total es
  unfolding live total
  total-live [] = omega arith
  total-live (y ∷ es) = ground (arith, total-live es)
