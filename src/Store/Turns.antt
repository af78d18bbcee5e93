-- ===== src/Store/Turns.antt =====
-- internal/store/store.go: the loop over the shards of `CleanupExpired` beside calls of other
-- connections. It holds the mutex of one shard at a time, so calls may come between its turns.
use mini_key_value_store.Prelude.{
  ◌<◌, length, arith, zero, ℕ, suc, none, some, List, [], ◌∷◌, ◌≡◌, ◌∙◌, Option-cases, inl, inr,
}
use mini_key_value_store.Shard.{Shard}
use mini_key_value_store.Shard.Repr.{Limits}
use mini_key_value_store.Store.{Store, at_index, set_index}
use mini_key_value_store.Store.Valid.{
  ShardValid, IsValid, length-set_index, All-at_index, All-set_index,
}

-- The index of the shard that is next, and what the loop has found so far.
pub record Loop (R : Type 0) : Type 0 where
  pub next : ℕ
  pub found : R

at_index-lt :
    (shards : List Shard) (i : ℕ) (sh : Shard) → at_index shards i ≡ some sh → i < length shards
unfolding at_index
at_index-lt [] i sh e = absurd (cc)
at_index-lt (s ∷ shards) zero sh e = omega arith
at_index-lt (s ∷ shards) (suc i) sh e = omega (arith, at_index-lt shards i sh e)

module _ {R : Type 0} (body : ℕ → Shard → R → Shard × R) where
  -- A turn, on the shard with the index `next`; the loop is over when there is none.
  unfoldable pub take_turn : ℕ → Loop R → Store → Store × Loop R
  take_turn now l s = elim (at_index s.shards l.next) [
    | none ↦ (s, l)
    | some sh ↦
        let (sh', r) = body now sh l.found in
        (
          record s { shards = set_index s.shards l.next sh' },
          record { next = suc l.next; found = r },
        )
  ]

  -- What holds of the loop at each of its turns: `P i r` when it has found `r` and is
  -- at the shard with the index `i`.
  module _ (lim : Limits) (n : ℕ) (P : ℕ → R → Type 0)
      (keeps : (now i : ℕ) (sh : Shard) (r : R)
        → i < n
        → ShardValid lim sh
        → P i r
        → ShardValid lim (body now sh r).0 × P (suc i) (body now sh r).1) where
    pub take_turn-IsValid :
        (now : ℕ) (l : Loop R) (s : Store)
        → IsValid lim n s
        → P l.next l.found
        → IsValid lim n (take_turn now l s).0
          × P (take_turn now l s).1.next (take_turn now l s).1.found
    unfolding take_turn
    take_turn-IsValid now l s v p = elim (Option-cases (at_index s.shards l.next)) [
      | inl e ↦ rw (take_turn, e) (v, p)
      | inr (sh, e) ↦
          let b : l.next < n = omega (arith, at_index-lt s.shards l.next sh e, v.count) in
          let w = All-at_index (ShardValid lim) s.shards l.next sh v.each e in
          let (w', p') = keeps now l.next sh l.found b w p in
          let v' : IsValid lim n
              (record s { shards = set_index s.shards l.next (body now sh l.found).0 }) =
            record {
              count = length-set_index s.shards l.next (body now sh l.found).0 ∙ v.count;
              some_shard = v.some_shard;
              few = v.few;
              each = All-set_index (ShardValid lim) s.shards l.next _ v.each w';
            } in
          rw (take_turn, e) (v', p')
    ]
