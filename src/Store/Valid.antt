-- ===== src/Store/Valid.antt =====
-- internal/store/store.go: the invariant of the store, and calls of one shard.
use mini_key_value_store.Prelude.{
  ℕ, zero, suc, ◌*◌, ◌≤◌, ◌<◌, ◌^◌, some, List, [], ◌∷◌, Bytes, length, All, ◌≡◌, ◌≢◌, refl, ap,
  ◌∙◌, subst, arith,
}
use mini_key_value_store.Shard.{Shard}
use mini_key_value_store.Shard.Repr
use mini_key_value_store.Shard.Repr.{Limits, Repr}
use mini_key_value_store.Store.{
  Store, shard_index, at_index, set_index, shard_for, on_shard, sum_memory,
}
use mini_key_value_store.Store.Hash.{shard_index-lt}

abbrev pub ShardValid : Limits → Shard → Type 0
ShardValid lim sh = Repr.IsValid lim sh

-- There are `n` shards, and each is valid.
pub record IsValid (lim : Limits) (n : ℕ) (s : Store) : Type 0 where
  pub count : length s.shards ≡ n
  pub some_shard : 0 < n
  pub few : n < 2 ^ 32
  pub each : All (ShardValid lim) s.shards

module _ {A : Type 0} where
  pub at_index-some : (xs : List A) (i : ℕ) → i < length xs → (x : A) × (at_index xs i ≡ some x)
  unfolding at_index
  at_index-some [] i h = absurd (omega arith)
  at_index-some (x ∷ xs) zero h = (x, refl)
  at_index-some (x ∷ xs) (suc i) h = at_index-some xs i (omega arith)

  pub length-set_index : (xs : List A) (i : ℕ) (y : A) → length (set_index xs i y) ≡ length xs
  unfolding set_index
  length-set_index [] i y = refl
  length-set_index (x ∷ xs) zero y = refl
  length-set_index (x ∷ xs) (suc i) y = ap suc (length-set_index xs i y)

  pub at_index-set_self :
      (xs : List A) (i : ℕ) (y : A) → i < length xs → at_index (set_index xs i y) i ≡ some y
  unfolding at_index set_index
  at_index-set_self [] i y h = absurd (omega arith)
  at_index-set_self (x ∷ xs) zero y h = refl
  at_index-set_self (x ∷ xs) (suc i) y h = at_index-set_self xs i y (omega arith)

  pub at_index-set_ne :
      (xs : List A) (i j : ℕ) (y : A) → i ≢ j → at_index (set_index xs i y) j ≡ at_index xs j
  unfolding at_index set_index
  at_index-set_ne [] i j y h = refl
  at_index-set_ne (x ∷ xs) zero zero y h = absurd (h refl)
  at_index-set_ne (x ∷ xs) zero (suc j) y h = refl
  at_index-set_ne (x ∷ xs) (suc i) zero y h = refl
  at_index-set_ne (x ∷ xs) (suc i) (suc j) y h = at_index-set_ne xs i j y (λ e. h (ap suc e))

  pub All-at_index :
      (P : A → Type 0) (xs : List A) (i : ℕ) (x : A) → All P xs → at_index xs i ≡ some x → P x
  unfolding at_index
  All-at_index P [] i x a h = cc
  All-at_index P (y ∷ xs) zero x a h = let q : y ≡ x = cc in subst P q a.0
  All-at_index P (y ∷ xs) (suc i) x a h = All-at_index P xs i x a.1 h

  pub All-set_index :
      (P : A → Type 0) (xs : List A) (i : ℕ) (y : A) → All P xs → P y → All P (set_index xs i y)
  unfolding set_index
  All-set_index P [] i y a p = tt
  All-set_index P (x ∷ xs) zero y a p = (p, a.1)
  All-set_index P (x ∷ xs) (suc i) y a p = (a.0, All-set_index P xs i y a.1 p)

-- The method keeps the invariant of a shard.
abbrev pub Keeps : {A : Type 0} → Limits → (Shard → ℕ → Shard × ℕ × A) → Type 0
Keeps lim method = (sh : Shard) (c : ℕ) → ShardValid lim sh → ShardValid lim (method sh c).0

module _ (lim : Limits) (n : ℕ) (s : Store) (v : IsValid lim n s) (key : Bytes) where
  abbrev pub index : ℕ
  index = shard_index key (length s.shards)

  pub index-lt : index < length s.shards
  index-lt =
      shard_index-lt key (length s.shards) (omega (arith, v.count, v.some_shard))
        (omega (arith, v.count, v.few))

  pub shard_for-some : (sh : Shard) × (shard_for key s ≡ some sh) × ShardValid lim sh
  unfolding shard_for
  shard_for-some =
      let (sh, e) = at_index-some s.shards index index-lt in
      (sh, e, All-at_index (ShardValid lim) s.shards index sh v.each e)

  module _ {A : Type 0} (method : Shard → ℕ → Shard × ℕ × A) where
    -- A call runs the method of its shard and writes that shard back.
    pub on_shard-some :
        (sh : Shard)
        → shard_for key s ≡ some sh
        → on_shard key method s
          ≡ some (
            record {
              shards = set_index s.shards index (method sh s.cas).0;
              cas = (method sh s.cas).1;
            },
            (method sh s.cas).2,
          )
    unfolding on_shard
    on_shard-some sh e = rw (on_shard, e)

    -- A call keeps the invariant, and returns what the method of the shard does.
    pub on_shard-result :
        (Q : A → Type 0)
        → Keeps lim method
        → ((sh : Shard) (c : ℕ) → ShardValid lim sh → Q (method sh c).2)
        → (s' : Store) × (a : A) × (on_shard key method s ≡ some (s', a)) × IsValid lim n s' × Q a
    on_shard-result Q keeps q =
        let (sh, e, w) = shard_for-some in
        (
          _,
          _,
          on_shard-some sh e,
          record {
            count = length-set_index s.shards index (method sh s.cas).0 ∙ v.count;
            some_shard = v.some_shard;
            few = v.few;
            each = All-set_index (ShardValid lim) s.shards index _ v.each (keeps sh s.cas w);
          },
          q sh s.cas w,
        )

    pub on_shard-IsValid :
        Keeps lim method
        → (s' : Store) × (a : A) × (on_shard key method s ≡ some (s', a)) × IsValid lim n s'
    on_shard-IsValid keeps =
        let (s', a, e, w, _) = on_shard-result (λ _. Unit {0}) keeps (λ _ _ _. tt) in (s', a, e, w)

-- The accounted bytes of all shards stay within their slices.
pub sum_memory-le :
    (lim : Limits) (shards : List Shard)
    → All (ShardValid lim) shards
    → sum_memory shards ≤ length shards * lim.max_memory
unfolding sum_memory
sum_memory-le lim [] a = omega arith
sum_memory-le lim (sh ∷ rest) a =
    let (es, r) = a.0 in grind (arith, r.memory, r.fits, sum_memory-le lim rest a.1)
