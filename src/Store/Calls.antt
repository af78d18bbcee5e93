-- ===== src/Store/Calls.antt =====
-- internal/store/store.go: sequences of calls of the store, and its invariant along them.
use mini_key_value_store.Prelude.{
  ℕ, suc, ◌+◌, Option, none, some, List, [], ◌∷◌, Bytes, ℤ, length, All, ◌≡◌, refl, ap, ◌∙◌,
}
use mini_key_value_store.Shard.{Shard}
use mini_key_value_store.Shard.Methods
use mini_key_value_store.Shard.Repr.{Limits}
use mini_key_value_store.Shard.Sweep.{cleanup_expired-Repr}
use mini_key_value_store.Shard.Refine.Set.{set-Refines}
use mini_key_value_store.Shard.Refine.Reads.{get-Refines, delete-Refines}
use mini_key_value_store.Shard.Refine.Updates.{cas-Refines}
use mini_key_value_store.Shard.Refine.Incr.{incr-Refines}
use mini_key_value_store.Cache
use mini_key_value_store.Store.{
  Store, get_of, delete_of, set, get, delete, incr, cas, cleanup_shards, cleanup_expired,
}
use mini_key_value_store.Store.Valid.{ShardValid, IsValid, Keeps, on_shard-IsValid}

-- A call of the store's interface that changes it.
pub data Call : Type 0 where
  set_call : ℕ → Bytes → Bytes → ℤ → Call
  get_call : ℕ → Bytes → Call
  delete_call : ℕ → Bytes → Call
  incr_call : ℕ → Bytes → ℕ → Call
  cas_call : ℕ → Bytes → Bytes → ℤ → ℕ → Call
  cleanup_call : (ℕ → ℕ) → Call

abbrev pub state_of : {A : Type 0} → Option (Store × A) → Option Store
state_of none = none
state_of (some (s, _)) = some s

unfoldable pub step : Call → Store → Option Store
step (set_call now key value ttl) s = state_of (set now key value ttl s)
step (get_call now key) s = state_of (get now key s)
step (delete_call now key) s = state_of (delete now key s)
step (incr_call now key delta) s = state_of (incr now key delta s)
step (cas_call now key value ttl expected) s = state_of (cas now key value ttl expected s)
step (cleanup_call clock) s = some (cleanup_expired clock s).0

unfoldable pub run : List Call → Store → Option Store
run [] s = some s
run (c ∷ calls) s = elim (step c s) [ none ↦ none | some s' ↦ run calls s' ]

module _ (lim : Limits) (n : ℕ) where
  pub set-Keeps :
      (now : ℕ) (key value : Bytes) (ttl : ℤ) → Keeps lim (Methods.set now key value ttl)
  set-Keeps now key value ttl sh c (es, r) =
      ((Cache.set lim now key value ttl es c).0, (set-Refines lim now key value ttl c sh es r).repr)

  pub get-Keeps : (now : ℕ) (key : Bytes) → Keeps lim (get_of now key)
  get-Keeps now key sh c (es, r) =
      ((Cache.get lim now key es).0, (get-Refines lim now key sh es r).0)

  pub delete-Keeps : (now : ℕ) (key : Bytes) → Keeps lim (delete_of now key)
  delete-Keeps now key sh c (es, r) =
      ((Cache.delete lim now key es).0, (delete-Refines lim now key sh es r).0)

  pub incr-Keeps : (now : ℕ) (key : Bytes) (delta : ℕ) → Keeps lim (Methods.incr now key delta)
  incr-Keeps now key delta sh c (es, r) =
      ((Cache.incr lim now key delta es c).0, (incr-Refines lim now key c sh es r delta).repr)

  pub cas-Keeps :
      (now : ℕ) (key value : Bytes) (ttl : ℤ) (expected : ℕ)
      → Keeps lim (Methods.cas now key value ttl expected)
  cas-Keeps now key value ttl expected sh c (es, r) = (
    (Cache.cas lim now key value ttl expected es c).0,
    (cas-Refines lim now key c sh es r value ttl expected).repr,
  )

  state_of-IsValid :
      {A : Type 0} (o : Option (Store × A))
      → (s' : Store) × (a : A) × (o ≡ some (s', a)) × IsValid lim n s'
      → (s' : Store) × (state_of o ≡ some s') × IsValid lim n s'
  state_of-IsValid o (s', a, e, v) = (s', ap state_of e, v)

  pub cleanup_shards-All :
      (clock : ℕ → ℕ) (i : ℕ) (shards : List Shard)
      → All (ShardValid lim) shards
      → All (ShardValid lim) (cleanup_shards clock i shards).0
        × (length (cleanup_shards clock i shards).0 ≡ length shards)
  unfolding cleanup_shards
  cleanup_shards-All clock i [] a = (tt, refl)
  cleanup_shards-All clock i (sh ∷ rest) a =
      let (es, r) = a.0 in
      let (b, same) = cleanup_shards-All clock (i + 1) rest a.1 in
      (((_, (cleanup_expired-Repr lim (clock i) sh es r).0), b), ap suc same)

  -- On a valid store, each call of the interface finds its shard, runs without a panic and leaves
  -- a valid store.
  pub step-IsValid :
      (c : Call) (s : Store)
      → IsValid lim n s
      → (s' : Store) × (step c s ≡ some s') × IsValid lim n s'
  unfolding step set get delete incr cas cleanup_expired
  step-IsValid (set_call now key value ttl) s v =
      state_of-IsValid _ (
        on_shard-IsValid lim n s v key (Methods.set now key value ttl)
          (set-Keeps now key value ttl))
  step-IsValid (get_call now key) s v =
      state_of-IsValid _ (on_shard-IsValid lim n s v key (get_of now key) (get-Keeps now key))
  step-IsValid (delete_call now key) s v =
      state_of-IsValid _ (on_shard-IsValid lim n s v key (delete_of now key) (delete-Keeps now key))
  step-IsValid (incr_call now key delta) s v =
      state_of-IsValid _
        (on_shard-IsValid lim n s v key (Methods.incr now key delta) (incr-Keeps now key delta))
  step-IsValid (cas_call now key value ttl expected) s v = state_of-IsValid _ (
      on_shard-IsValid lim n s v key (Methods.cas now key value ttl expected)
        (cas-Keeps now key value ttl expected))
  step-IsValid (cleanup_call clock) s v =
      let (a, same) = cleanup_shards-All clock 0 s.shards v.each in
      (_, refl, record { count = same ∙ v.count; some_shard = v.some_shard; few = v.few; each = a })

  -- So does any sequence of calls.
  pub run-IsValid :
      (calls : List Call) (s : Store)
      → IsValid lim n s
      → (s' : Store) × (run calls s ≡ some s') × IsValid lim n s'
  unfolding run
  run-IsValid [] s v = (s, refl, v)
  run-IsValid (c ∷ calls) s v =
      let (s', e, v') = step-IsValid c s v in
      let (s'', e', v'') = run-IsValid calls s' v' in (s'', rw (run, e) e', v'')
