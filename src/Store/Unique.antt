-- ===== src/Store/Unique.antt =====
-- internal/store/store.go: that a version names one state of one item, along any sequence of calls.
use mini_key_value_store.Prelude.{
  ℕ, zero, suc, ◌+◌, ◌≤◌, ◌<◌, ◌^◌, Option, none, some, List, [], ◌∷◌, Bytes, length, All, ◌≡◌, inl,
  inr, refl, sym, ◌∙◌, subst, arith,
}
use mathlib.Core.Option.{some-injective}
use mini_key_value_store.Item.{StoredItem}
use mini_key_value_store.Table.{lookup}
use mini_key_value_store.Shard.{Shard, item_at}
use mini_key_value_store.Shard.Repr.{Limits}
use mini_key_value_store.Shard.Methods
use mini_key_value_store.Store.{
  Store, get_of, delete_of, set, get, delete, incr, cas, shard_index, at_index, shard_for,
  cleanup_expired,
}
use mini_key_value_store.Store.Config.{
  Config, magnitude, normalize_config, new_shard, per_shard_memory, new,
}
use mini_key_value_store.Store.Start.{limits_of, new-IsValid, All-replicate}
use mini_key_value_store.Store.Valid.{IsValid}
use mini_key_value_store.Store.Calls.{
  Call, set_call, get_call, delete_call, incr_call, cas_call, cleanup_call, step, run, step-IsValid,
}
use mini_key_value_store.Store.Versions.{held, held_in, IsVersioned, Advances, Advances-IsVersioned}
use mini_key_value_store.Store.Advance.{
  on_shard-Advances, set-Gives, cas-Gives, incr-Gives, get-Gives, delete-Gives, cleanup-Advances,
}

module _ (lim : Limits) (n : ℕ) where
  -- After a call: the store is valid, and its versions are those before it and perhaps one more.
  abbrev Next : Store → Store → Type 0
  Next s s' = IsValid lim n s' × (key : Bytes) × Advances key s s'

  step-Next :
      (c : Call) (s : Store)
      → IsValid lim n s
      → s.cas + 1 < 2 ^ 64
      → (s' : Store) × (step c s ≡ some s') × Next s s'
  unfolding step set get delete incr cas
  step-Next (set_call now key value ttl) s v few =
      let (s', e, w, a) =
        on_shard-Advances lim n key (Methods.set now key value ttl)
          (set-Gives lim n now key value ttl) s v few in
      (s', e, (w, key, a))
  step-Next (get_call now key) s v few =
      let (s', e, w, a) =
        on_shard-Advances lim n key (get_of now key) (get-Gives lim n now key) s v few in
      (s', e, (w, key, a))
  step-Next (delete_call now key) s v few =
      let (s', e, w, a) =
        on_shard-Advances lim n key (delete_of now key) (delete-Gives lim n now key) s v few in
      (s', e, (w, key, a))
  step-Next (incr_call now key delta) s v few =
      let (s', e, w, a) =
        on_shard-Advances lim n key (Methods.incr now key delta) (incr-Gives lim n now key delta) s
          v few in
      (s', e, (w, key, a))
  step-Next (cas_call now key value ttl expected) s v few =
      let (s', e, w, a) =
        on_shard-Advances lim n key (Methods.cas now key value ttl expected)
          (cas-Gives lim n now key value ttl expected) s v few in
      (s', e, (w, key, a))
  step-Next (cleanup_call clock) s v few =
      let (s', e, w) = step-IsValid lim n (cleanup_call clock) s v in
      (
        s',
        e,
        (
          w,
          [],
          subst (Advances [] s) (some-injective (cleanup_expired clock s).0 s' e)
              (cleanup-Advances lim n clock s v),
        ),
      )

  run-IsVersioned :
      (calls : List Call) (s : Store)
      → IsValid lim n s
      → IsVersioned s
      → s.cas + length calls < 2 ^ 64
      → (s' : Store) × (run calls s ≡ some s') × IsVersioned s'
  unfolding run
  run-IsVersioned [] s v u few = (s, refl, u)
  run-IsVersioned (c ∷ calls) s v u few =
      let (s', e, (w, key, a)) = step-Next c s v (omega (arith, few)) in
      let more : s'.cas + length calls < 2 ^ 64 = elim a.counter [
        | inl q ↦ omega (arith, few, q)
        | inr q ↦ omega (arith, few, q)
      ] in
      let (s'', e', u') = run-IsVersioned calls s' w (Advances-IsVersioned key s s' a u) more in
      (s'', rw (run, e) e', u')

-- The new store holds nothing.
held_nowhere :
    (k : Bytes) (shards : List Shard) (i : ℕ)
    → All (λ sh. item_at sh k ≡ none) shards
    → held_in k (at_index shards i) ≡ none
unfolding at_index
held_nowhere k [] i a = refl
held_nowhere k (sh ∷ rest) zero a = a.0
held_nowhere k (sh ∷ rest) (suc i) a = held_nowhere k rest i a.1

new_shard-none : (c : Config) (memory : ℕ) (k : Bytes) → item_at (new_shard c memory) k ≡ none
unfolding new_shard lookup
new_shard-none c memory k = refl

nothing_held : (given : Config) (k : Bytes) (e : StoredItem) → held k (new given) ≡ some e → ⊥
unfolding new shard_for
nothing_held given k e h =
    let c = normalize_config given in
    let empty =
      All-replicate (λ sh. item_at sh k ≡ none) (magnitude c.shards) _
        (new_shard-none c (per_shard_memory c) k) in
    let none_held =
      held_nowhere k (new given).shards (shard_index k (length (new given).shards)) empty in
    some_none e (sym h ∙ none_held)
  where
    some_none : (e : StoredItem) → ◌≡◌ {A = Option StoredItem} (some e) none → ⊥
    some_none e q = absurd (cc)

new-IsVersioned : (given : Config) → IsVersioned (new given)
new-IsVersioned given = record {
  below = λ k e h. absurd (nothing_held given k e h);
  unique = λ k j e f h g same. absurd (nothing_held given k e h);
}

-- After any sequence of fewer than 2^64 calls on a new store of fewer than 2^32 shards, which none
-- of them makes panic: no item that is held has a version above the CAS counter, and no two keys
-- hold items with the same version, in whatever shards they are.
pub run-versions :
    (given : Config) (calls : List Call)
    → magnitude (normalize_config given).shards < 2 ^ 32
    → length calls < 2 ^ 64
    → (s : Store) × (run calls (new given) ≡ some s)
      × ((k : Bytes) (e : StoredItem) → held k s ≡ some e → e.cas ≤ s.cas)
      × ((k j : Bytes) (e f : StoredItem)
          → held k s ≡ some e
          → held j s ≡ some f
          → e.cas ≡ f.cas
          → k ≡ j)
run-versions given calls few short =
    let c = normalize_config given in
    let start : (new given).cas ≡ 0 = unfold new in refl in
    let (s, e, u) =
      run-IsVersioned (limits_of c) (magnitude c.shards) calls (new given) (new-IsValid given few)
        (new-IsVersioned given) (omega (arith, start, short)) in
    (s, e, u.below, u.unique)
