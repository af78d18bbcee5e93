-- ===== src/Store/Advance.antt =====
-- internal/store/store.go: the versions after each call of the interface.
use mini_key_value_store.Prelude.{
  ℕ, ℕ_discrete, zero, suc, ◌+◌, ◌<◌, ◌^◌, some, List, [], ◌∷◌, Bytes, ℤ, length, All, ◌≡◌, inl,
  inr, refl, ap, sym, ◌∙◌, subst,
}
use mini_key_value_store.Item.{StoredItem}
use mini_key_value_store.Recency.{Items, find}
use mini_key_value_store.Shard.{Shard}
use mini_key_value_store.Shard.Methods
use mini_key_value_store.Shard.Repr.{Limits, Repr}
use mini_key_value_store.Shard.Sweep.{cleanup_expired-Repr}
use mini_key_value_store.Shard.Refine.Set.{set-Refines}
use mini_key_value_store.Shard.Refine.Reads.{get-Refines, delete-Refines}
use mini_key_value_store.Shard.Refine.Updates.{cas-Refines}
use mini_key_value_store.Shard.Refine.Incr.{incr-Refines}
use mini_key_value_store.Cache
use mini_key_value_store.Cache.Stamps
use mini_key_value_store.Cache.Stamps.{Stamped}
use mini_key_value_store.Store.{
  Store, get_of, delete_of, shard_index, at_index, shard_for, on_shard, cleanup_shards,
  cleanup_expired,
}
use mini_key_value_store.Store.Valid.{ShardValid, IsValid, shard_for-some, on_shard-some}
use mini_key_value_store.Store.Reads.{
  written, written-IsValid, shard_for-same_index, shard_for-other, shard_for_eq,
}
use mini_key_value_store.Store.Calls.{state_of, cleanup_shards-All}
use mini_key_value_store.Store.Versions.{held_in, Advances}

module _ (lim : Limits) (n : ℕ) where
  -- The method leaves a list of items whose new item has the next version.
  abbrev pub Gives : {A : Type 0} → Bytes → (Shard → ℕ → Shard × ℕ × A) → Type 0
  Gives key method =
      (sh : Shard) (c : ℕ) (es : Items)
      → c + 1 < 2 ^ 64
      → Repr lim sh es
      → (es' : Items) × Repr lim (method sh c).0 es' × Stamped key c es (method sh c).1 es'

  module _ {A : Type 0} (key : Bytes) (method : Shard → ℕ → Shard × ℕ × A) (g : Gives key method)
      (s : Store) (v : IsValid lim n s) (few : s.cas + 1 < 2 ^ 64) where
    -- The method of the shard of `key`, which represents `es` and then `es'`.
    written-Advances :
        (sh sh' : Shard) (c : ℕ) (es es' : Items)
        → shard_for key s ≡ some sh
        → Repr lim sh es
        → Repr lim sh' es'
        → Stamped key s.cas es c es'
        → Advances key s (written lim n s v key sh' c)
    written-Advances sh sh' c es es' e r r' st = record {
      counter = st.counter;
      each = λ k x h.
          elim (ℕ_discrete (shard_index k (length s.shards)) (shard_index key (length s.shards))) [
            | no ne ↦ inl (sym (ap (held_in k) (shard_for-other lim n s v key sh' c k ne)) ∙ h)
            | yes same ↦
                let now : find k es' ≡ some x =
                  sym (r'.found k)
                  ∙ sym (ap (held_in k) (shard_for-same_index lim n s v key sh' c k same))
                  ∙ h in
                elim (st.each k x now) [
                  | inl old ↦
                      inl (ap (held_in k) (shard_for_eq s key k sh same e) ∙ r.found k ∙ old)
                  | inr fresh ↦ inr fresh
                ]
          ];
    }

    pub on_shard-Advances :
        (s' : Store) × (state_of (on_shard key method s) ≡ some s')
        × IsValid lim n s'
        × Advances key s s'
    on_shard-Advances =
        let (sh, e, (es, r)) = shard_for-some lim n s v key in
        let (es', r', st) = g sh s.cas es few r in
        let sh' = (method sh s.cas).0 in
        let c = (method sh s.cas).1 in
        (
          written lim n s v key sh' c,
          ap state_of (on_shard-some lim n s v key method sh e),
          written-IsValid lim n s v key sh' c (es', r'),
          written-Advances sh sh' c es es' e r r' st,
        )

  pub set-Gives :
      (now : ℕ) (key value : Bytes) (ttl : ℤ) → Gives key (Methods.set now key value ttl)
  set-Gives now key value ttl sh c es few r =
      let q = set-Refines lim now key value ttl c sh es r in
      let next = Cache.set lim now key value ttl es c in
      (
        next.0,
        q.repr,
        subst (λ m. Stamped key c es m next.0) (sym q.counter)
            (Stamps.set-Stamps lim now key c few es r.chain.distinct value ttl),
      )

  pub cas-Gives :
      (now : ℕ) (key value : Bytes) (ttl : ℤ) (expected : ℕ)
      → Gives key (Methods.cas now key value ttl expected)
  cas-Gives now key value ttl expected sh c es few r =
      let q = cas-Refines lim now key c sh es r value ttl expected in
      let next = Cache.cas lim now key value ttl expected es c in
      (
        next.0,
        q.repr,
        subst (λ m. Stamped key c es m next.0) (sym q.counter)
            (Stamps.cas-Stamps lim now key c few es r.chain.distinct value ttl expected),
      )

  pub incr-Gives : (now : ℕ) (key : Bytes) (delta : ℕ) → Gives key (Methods.incr now key delta)
  incr-Gives now key delta sh c es few r =
      let q = incr-Refines lim now key c sh es r delta in
      let next = Cache.incr lim now key delta es c in
      (
        next.0,
        q.repr,
        subst (λ m. Stamped key c es m next.0) (sym q.counter)
            (Stamps.incr-Stamps lim now key c few es r.chain.distinct delta),
      )

  pub get-Gives : (now : ℕ) (key : Bytes) → Gives key (get_of now key)
  get-Gives now key sh c es few r = (
    (Cache.get lim now key es).0,
    (get-Refines lim now key sh es r).0,
    Stamps.get-Stamped lim now key c few es r.chain.distinct,
  )

  pub delete-Gives : (now : ℕ) (key : Bytes) → Gives key (delete_of now key)
  delete-Gives now key sh c es few r = (
    (Cache.delete lim now key es).0,
    (delete-Refines lim now key sh es r).0,
    Stamps.delete-Stamped lim now key c few es r.chain.distinct,
  )

  -- A sweep leaves fewer items under each key.
  swept :
      (clock : ℕ → ℕ) (i : ℕ) (shards : List Shard) (j : ℕ) (k : Bytes) (e : StoredItem)
      → All (ShardValid lim) shards
      → held_in k (at_index (cleanup_shards clock i shards).0 j) ≡ some e
      → held_in k (at_index shards j) ≡ some e
  unfolding cleanup_shards at_index
  swept clock i [] j k e a h = h
  swept clock i (sh ∷ rest) zero k e a h =
      let (es, r) = a.0 in
      let r' = (cleanup_expired-Repr lim (clock i) sh es r).0 in
      r.found k ∙ Stamps.live_found k (clock i) es r.chain.distinct e (sym (r'.found k) ∙ h)
  swept clock i (sh ∷ rest) (suc j) k e a h = swept clock (i + 1) rest j k e a.1 h

  pub cleanup-Advances :
      (clock : ℕ → ℕ) (s : Store) → IsValid lim n s → Advances [] s (cleanup_expired clock s).0
  unfolding cleanup_expired shard_for
  cleanup-Advances clock s v =
      let same = (cleanup_shards-All lim n clock 0 s.shards v.each).1 in
      record {
        counter = inl refl;
        each = λ k e h. inl (
            swept clock 0 s.shards (shard_index k (length s.shards)) k e v.each (
              ap (λ m. held_in k (at_index (cleanup_shards clock 0 s.shards).0 (shard_index k m)))
                (sym same)
              ∙ h));
      }
