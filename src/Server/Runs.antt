-- ===== src/Server/Runs.antt =====
-- internal/server/server.go: `execute` on a valid store.
use mini_key_value_store.Prelude.{
  ℕ, ◌+◌, Option, some, List, [], ◌∷◌, ◌++◌, Bytes, ◌≡◌, refl, ap, ◌∙◌, inl, inr, Bool-cases,
  Option-cases, ltb, pos, ◌*◌,
}
use mini_key_value_store.Item
use mini_key_value_store.Item.{StoreError, Result, ok, err}
use mini_key_value_store.Shard.Methods
use mini_key_value_store.Shard.Repr.{Limits}
use mini_key_value_store.Store.{Store, get_of, delete_of, set, get, delete, incr, cas}
use mini_key_value_store.Store.Valid.{IsValid, on_shard-result}
use mini_key_value_store.Store.Calls.{set-Keeps, get-Keeps, delete-Keeps, incr-Keeps, cas-Keeps}
use mini_key_value_store.Protocol.{
  Op, op_none, op_get, op_set, op_delete, op_incr, op_ping, op_auth, op_mget, op_gets, op_cas,
  op_stats, Command,
}
use mini_key_value_store.Server.{Counters, Reply}
use mini_key_value_store.Server.Execute.{
  Executed, replies, fails, Execution, answer, get_answer, set_answer, cas_answer, incr_answer,
  delete_answer, get_all, max_ttl_seconds, second, execute_op, execute,
}
use mini_key_value_store.Server.Answers.{
  HasReplies, set-HasReplies, cas-HasReplies, incr-HasReplies, get_answer-HasReplies,
  delete_answer-HasReplies,
}

-- The execution runs without a panic, writes replies and leaves a valid store.
abbrev pub Runs : Limits → ℕ → Execution → Type 0
Runs lim n o = (s' : Store) × (rs : List Reply) × (o ≡ some (s', replies rs)) × IsValid lim n s'

module _ (lim : Limits) (n : ℕ) where
  answer-Runs :
      {A : Type 0} (o : Option (Store × A)) (f : A → Executed)
      → (s' : Store) × (a : A) × (o ≡ some (s', a)) × IsValid lim n s' × HasReplies (f a)
      → Runs lim n (answer o f)
  answer-Runs {A = A} o f (s', a, e, v, h) = replied (f a) refl h
    where
      replied : (x : Executed) → f a ≡ x → HasReplies x → Runs lim n (answer o f)
      replied (replies rs) q h = (s', rs, ap (λ p. answer p f) e ∙ ap (λ y. some (s', y)) q, v)
      replied (fails k) q h = absurd h

  module _ (show : Bytes → Item.Item → Reply) (clock : ℕ → ℕ) where
    get_all-Runs :
        (i : ℕ) (keys : List Bytes) (s : Store) (out : List Reply)
        → IsValid lim n s
        → Runs lim n (get_all show clock i keys s out)
    unfolding get_all get
    get_all-Runs i [] s out v = (s, _, refl, v)
    get_all-Runs i (key ∷ keys) s out v =
        let (s', o, e, w, _) =
          on_shard-result lim n s v key (get_of (clock i) key) (λ _. Unit {0})
            (get-Keeps lim n (clock i) key) (λ _ _ _. tt) in
        elim (Option-cases o) [
          | inl f ↦ rw (get_all, e, f) (get_all-Runs (i + 1) keys s' out w)
          | inr (item, f) ↦
              rw (get_all, e, f) (get_all-Runs (i + 1) keys s' (out ++ show key item ∷ []) w)
        ]

  module _ (c : Command) (clock : ℕ → ℕ) (counters : Counters) (s : Store)
      (v : IsValid lim n s) where
    set-Runs : Runs lim n (execute_op op_set c clock counters s)
    unfolding execute_op set
    set-Runs = elim (Bool-cases (ltb max_ttl_seconds c.ttl_seconds)) [
      | inl e ↦ rw (execute_op, e) (s, _, refl, v)
      | inr e ↦
          rw (execute_op, e)
            (answer-Runs _ set_answer (
              on_shard-result lim n s v c.key
                (Methods.set (clock 0) c.key c.value (pos (c.ttl_seconds * second)))
                (λ o. HasReplies (set_answer o))
                (set-Keeps lim n (clock 0) c.key c.value (pos (c.ttl_seconds * second)))
                (set-HasReplies lim (clock 0) c.key c.value (pos (c.ttl_seconds * second)))))
    ]

    cas-Runs : Runs lim n (execute_op op_cas c clock counters s)
    unfolding execute_op cas
    cas-Runs = elim (Bool-cases (ltb max_ttl_seconds c.ttl_seconds)) [
      | inl e ↦ rw (execute_op, e) (s, _, refl, v)
      | inr e ↦
          rw (execute_op, e)
            (answer-Runs _ cas_answer (
              on_shard-result lim n s v c.key
                (Methods.cas (clock 0) c.key c.value (pos (c.ttl_seconds * second)) c.cas)
                (λ o. HasReplies (cas_answer o))
                (cas-Keeps lim n (clock 0) c.key c.value (pos (c.ttl_seconds * second)) c.cas)
                (cas-HasReplies lim (clock 0) c.key c.value (pos (c.ttl_seconds * second)) c.cas)))
    ]

    execute_op-Runs : (op : Op) → Runs lim n (execute_op op c clock counters s)
    unfolding execute_op get delete incr
    execute_op-Runs op_set = set-Runs
    execute_op-Runs op_cas = cas-Runs
    execute_op-Runs op_get = answer-Runs _ (get_answer c.key) (
        on_shard-result lim n s v c.key (get_of (clock 0) c.key)
          (λ o. HasReplies (get_answer c.key o)) (get-Keeps lim n (clock 0) c.key)
          (λ sh k _. get_answer-HasReplies c.key _))
    execute_op-Runs op_delete = answer-Runs _ delete_answer (
        on_shard-result lim n s v c.key (delete_of (clock 0) c.key)
          (λ b. HasReplies (delete_answer b)) (delete-Keeps lim n (clock 0) c.key)
          (λ sh k _. delete_answer-HasReplies _))
    execute_op-Runs op_incr = answer-Runs _ incr_answer (
        on_shard-result lim n s v c.key (Methods.incr (clock 0) c.key c.delta)
          (λ o. HasReplies (incr_answer o)) (incr-Keeps lim n (clock 0) c.key c.delta)
          (incr-HasReplies lim (clock 0) c.key c.delta))
    execute_op-Runs op_mget = get_all-Runs _ clock 0 c.keys s [] v
    execute_op-Runs op_gets = get_all-Runs _ clock 0 c.keys s [] v
    execute_op-Runs op_ping = (s, _, refl, v)
    execute_op-Runs op_stats = (s, _, refl, v)
    execute_op-Runs op_auth = (s, _, refl, v)
    execute_op-Runs op_none = (s, _, refl, v)

    -- On a valid store, `execute` runs any command without a panic, writes replies and returns no
    -- error, and leaves a valid store.
    pub execute-Runs : Runs lim n (execute c clock counters s)
    unfolding execute
    execute-Runs = execute_op-Runs c.op
