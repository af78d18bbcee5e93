-- ===== src/Store/Ints.antt =====
-- internal/store/store.go: sequences of calls in which no sum of an `int` wraps.
use mini_key_value_store.Prelude.{ℕ, ◌+◌, ◌^◌, ◌≤◌, ◌<◌, some, List, [], ◌∷◌, length, All, ◌≡◌}
use mini_key_value_store.Shard.{Shard}
use mini_key_value_store.Shard.Repr.{Limits}
use mini_key_value_store.Shard.Methods
use mini_key_value_store.Shard.Machine.{int_set, int_cas, int_incr}
use mini_key_value_store.Shard.Machine.Same.{int_set-eq, int_cas-eq, int_incr-eq}
use mini_key_value_store.Store.{Store, memory_bytes}
use mini_key_value_store.Store.Config.{Config, magnitude, normalize_config, new}
use mini_key_value_store.Store.Valid.{ShardValid, IsValid}
use mini_key_value_store.Store.Calls.{
  Call, set_call, get_call, delete_call, incr_call, cas_call, cleanup_call, step, step-IsValid, run,
}
use mini_key_value_store.Store.Start.{limits_of, new-IsValid, run-new}

-- The size of the item that a call may write, with the limit of the memory of a shard, is an `int`.
abbrev pub IsModest : Limits → Call → Type 0
IsModest lim (set_call now key value ttl) =
    length key + length value + lim.overhead + lim.max_memory < 2 ^ 63
IsModest lim (cas_call now key value ttl expected) =
    length key + length value + lim.overhead + lim.max_memory < 2 ^ 63
IsModest lim (incr_call now key delta) = length key + 20 + lim.overhead + lim.max_memory < 2 ^ 63
IsModest lim (get_call now key) = Unit
IsModest lim (delete_call now key) = Unit
IsModest lim (cleanup_call clock) = Unit

-- The call with the sums of the machine is the call with the exact ones, whichever its shard.
abbrev pub IsExact : Call → Store → Type 0
IsExact (set_call now key value ttl) s =
    All (λ sh. int_set now key value ttl sh s.cas ≡ Methods.set now key value ttl sh s.cas) s.shards
IsExact (cas_call now key value ttl expected) s =
    All
      (λ sh.
        int_cas now key value ttl expected sh s.cas
        ≡ Methods.cas now key value ttl expected sh s.cas)
      s.shards
IsExact (incr_call now key delta) s =
    All (λ sh. int_incr now key delta sh s.cas ≡ Methods.incr now key delta sh s.cas) s.shards
IsExact (get_call now key) s = Unit
IsExact (delete_call now key) s = Unit
IsExact (cleanup_call clock) s = Unit

-- So is each of the calls, at the store that those before it leave, and none of them panics.
abbrev pub AllExact : List Call → Store → Type 0
AllExact [] s = Unit
AllExact (c ∷ calls) s = IsExact c s × (s' : Store) × (step c s ≡ some s') × AllExact calls s'

module _ (lim : Limits) (n : ℕ) where
  All-each :
      (P : Shard → Type 0)
      → ((sh : Shard) → ShardValid lim sh → P sh)
      → (shards : List Shard) → All (ShardValid lim) shards
      → All P shards
  All-each P h [] a = tt
  All-each P h (sh ∷ shards) (v, a) = (h sh v, All-each P h shards a)

  pub step-IsExact : (c : Call) (s : Store) → IsValid lim n s → IsModest lim c → IsExact c s
  step-IsExact (set_call now key value ttl) s v h =
      All-each _ (λ sh (es, r). int_set-eq lim now key value ttl s.cas sh es r h) s.shards v.each
  step-IsExact (cas_call now key value ttl expected) s v h =
      All-each _ (λ sh (es, r). int_cas-eq lim now key s.cas sh es r value ttl expected h) s.shards
        v.each
  step-IsExact (incr_call now key delta) s v h =
      All-each _ (λ sh (es, r). int_incr-eq lim now key s.cas sh es r delta h) s.shards v.each
  step-IsExact (get_call now key) s v h = tt
  step-IsExact (delete_call now key) s v h = tt
  step-IsExact (cleanup_call clock) s v h = tt

  pub run-AllExact :
      (calls : List Call) (s : Store)
      → IsValid lim n s
      → All (IsModest lim) calls
      → AllExact calls s
  run-AllExact [] s v h = tt
  run-AllExact (c ∷ calls) s v (m, h) =
      let (s', e, v') = step-IsValid lim n c s v in
      (step-IsExact c s v m, s', e, run-AllExact calls s' v' h)

-- Whatever calls follow `New`, if the normalized configuration has fewer than 2^32 shards and at most
-- one for each byte of its memory, and the size of the item that a call may write, with the limit of
-- the memory of a shard, is always below 2^63: none of the calls panics, each of them is the one with
-- the sums of the machine, and the accounted memory stays within the configured memory.
pub run_in_range :
    (given : Config) (calls : List Call)
    → magnitude (normalize_config given).shards < 2 ^ 32
    → magnitude (normalize_config given).shards
      ≤ magnitude (normalize_config given).max_memory_bytes
    → All (IsModest (limits_of (normalize_config given))) calls
    → AllExact calls (new given)
      × (s : Store) × (run calls (new given) ≡ some s)
      × (memory_bytes s ≤ magnitude (normalize_config given).max_memory_bytes)
run_in_range given calls few room modest =
    let (s, e, m) = run-new given calls few room in
    (
      run-AllExact (limits_of (normalize_config given)) (magnitude (normalize_config given).shards)
          calls (new given) (new-IsValid given few) modest,
      s,
      e,
      m,
    )
