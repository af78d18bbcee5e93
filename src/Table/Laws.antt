-- ===== src/Table/Laws.antt =====
-- What a lookup sees after a write or a deletion.
use mini_key_value_store.Prelude.{
  none, some, ite, if_pos, if_neg, [], ◌∷◌, ◌≡◌, refl, sym, ◌+◌, arith, Fresh, Distinct, length,
}
use mini_key_value_store.Table.{Table, keys, lookup, put, delete}

module _ {K V : Type 0} (dec : Discrete K) where
  pub lookup-put :
      (k j : K) (v : V) (m : Table K V)
      → lookup dec j (put dec k v m) ≡ ite (dec j k) (some v) (lookup dec j m)
  unfolding lookup put
  lookup-put k j v [] = refl
  lookup-put k j v ((i, w) ∷ m) = ground (arith, lookup-put k j v m)

  pub lookup-Fresh : (k : K) (m : Table K V) → Fresh k (keys m) → lookup dec k m ≡ none
  unfolding lookup
  lookup-Fresh k [] fr = refl
  lookup-Fresh k ((j, w) ∷ m) fr = ground (arith, lookup-Fresh k m fr.1)

  pub Fresh-lookup : (k : K) (m : Table K V) → lookup dec k m ≡ none → Fresh k (keys m)
  unfolding lookup
  Fresh-lookup k [] e = tt
  Fresh-lookup k ((j, w) ∷ m) e = ground (arith, Fresh-lookup k m)

  pub lookup-delete :
      (k j : K) (m : Table K V)
      → Distinct (keys m)
      → lookup dec j (delete dec k m) ≡ ite (dec j k) none (lookup dec j m)
  unfolding lookup delete
  lookup-delete k j [] d = ground arith
  lookup-delete k j ((i, w) ∷ m) d = ground (arith, lookup-delete k j m d.1, lookup-Fresh i m d.0)

  pub Fresh-put :
      (k j : K) (v : V) (m : Table K V)
      → ¬ (j ≡ k)
      → Fresh j (keys m)
      → Fresh j (keys (put dec k v m))
  unfolding put
  Fresh-put k j v [] ne fr = (ne, tt)
  Fresh-put k j v ((i, w) ∷ m) ne fr = ground (arith, Fresh-put k j v m ne fr.1)

  pub Distinct-put :
      (k : K) (v : V) (m : Table K V) → Distinct (keys m) → Distinct (keys (put dec k v m))
  unfolding put
  Distinct-put k v [] d = (tt, tt)
  Distinct-put k v ((i, w) ∷ m) d = elim (dec k i) [
    | yes e ↦ rw (if_pos (dec k i) e) (ground arith)
    | no n ↦
        rw (if_neg (dec k i) n) (Fresh-put k i v m (λ e. n (sym e)) d.0, Distinct-put k v m d.1)
  ]

  pub Fresh-delete : (k j : K) (m : Table K V) → Fresh j (keys m) → Fresh j (keys (delete dec k m))
  unfolding delete
  Fresh-delete k j [] fr = tt
  Fresh-delete k j ((i, w) ∷ m) fr = ground (arith, Fresh-delete k j m fr.1)

  pub Distinct-delete :
      (k : K) (m : Table K V) → Distinct (keys m) → Distinct (keys (delete dec k m))
  unfolding delete
  Distinct-delete k [] d = tt
  Distinct-delete k ((i, w) ∷ m) d = ground (arith, Distinct-delete k m d.1, Fresh-delete k i m d.0)

  pub length-delete :
      (k : K) (v : V) (m : Table K V)
      → lookup dec k m ≡ some v
      → length m ≡ length (delete dec k m) + 1
  unfolding lookup delete
  length-delete k v [] e = cc
  length-delete k v ((i, w) ∷ m) e = ground (arith, length-delete k v m)

  pub length-put_new :
      (k : K) (v : V) (m : Table K V)
      → lookup dec k m ≡ none
      → length (put dec k v m) ≡ length m + 1
  unfolding lookup put
  length-put_new k v [] e = omega arith
  length-put_new k v ((i, w) ∷ m) e = ground (arith, length-put_new k v m)

  pub length-put_old :
      (k : K) (v w : V) (m : Table K V)
      → lookup dec k m ≡ some w
      → length (put dec k v m) ≡ length m
  unfolding lookup put
  length-put_old k v w [] e = cc
  length-put_old k v w ((i, x) ∷ m) e = ground (arith, length-put_old k v w m)
