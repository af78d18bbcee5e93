-- ===== src/Server/Execute.antt =====
-- internal/server/server.go: `execute`. `clock i` is the reading of the clock at the call of the
-- store with the number `i`; `none` is a panic of the store.
use mini_key_value_store.Prelude.{
  ℕ, ◌+◌, ◌*◌, ◌-◌, ◌/◌, ◌^◌, Bool, true, false, Option, none, some, List, [], ◌∷◌, ◌++◌, Bytes,
  pos, ltb, if◌then◌else◌,
}
use mini_key_value_store.Item
use mini_key_value_store.Item.{Item, StoreError, Result, ok, err}
use mini_key_value_store.Store.{Store, set, get, delete, incr, cas, stats}
use mini_key_value_store.Protocol.{
  Op, op_none, op_get, op_set, op_delete, op_incr, op_ping, op_auth, op_mget, op_gets, op_cas,
  op_stats, Command,
}
use mini_key_value_store.Server.{
  Counters, ttl_too_large, value_not_integer, increment_overflows, value_too_large,
  memory_limit_exceeded, unknown_command, Reply, pong, end_reply, stored, deleted, not_found,
  exists, value_reply, gets_reply, number_reply, stats_reply, error_line,
}

-- What `execute` comes to: the replies that it writes, or the error that it returns.
pub data Executed : Type 0 where
  replies : List Reply → Executed
  fails : StoreError → Executed

abbrev pub Execution : Type 0
Execution = Option (Store × Executed)

-- The answer of a call of the store.
abbrev pub answer : {A : Type 0} → Option (Store × A) → (A → Executed) → Execution
answer none f = none
answer (some (s, a)) f = some (s, f a)

unfoldable pub get_answer : Bytes → Option Item → Executed
get_answer key none = replies (end_reply ∷ [])
get_answer key (some item) = replies (value_reply key item.value ∷ end_reply ∷ [])

unfoldable pub set_answer : Option StoreError → Executed
set_answer none = replies (stored ∷ [])
set_answer (some Item.value_too_large) = replies (error_line value_too_large ∷ [])
set_answer (some Item.memory_limit_exceeded) = replies (error_line memory_limit_exceeded ∷ [])
set_answer (some e) = fails e

unfoldable pub cas_answer : Option StoreError → Executed
cas_answer none = replies (stored ∷ [])
cas_answer (some Item.cas_mismatch) = replies (exists ∷ [])
cas_answer (some Item.not_found) = replies (not_found ∷ [])
cas_answer (some Item.value_too_large) = replies (error_line value_too_large ∷ [])
cas_answer (some Item.memory_limit_exceeded) = replies (error_line memory_limit_exceeded ∷ [])
cas_answer (some e) = fails e

unfoldable pub incr_answer : Result ℕ → Executed
incr_answer (ok n) = replies (number_reply n ∷ [])
incr_answer (err Item.not_found) = replies (not_found ∷ [])
incr_answer (err Item.not_integer) = replies (error_line value_not_integer ∷ [])
incr_answer (err Item.overflow) = replies (error_line increment_overflows ∷ [])
incr_answer (err Item.value_too_large) = replies (error_line value_too_large ∷ [])
incr_answer (err Item.memory_limit_exceeded) = replies (error_line memory_limit_exceeded ∷ [])
incr_answer (err e) = fails e

abbrev pub delete_answer : Bool → Executed
delete_answer true = replies (deleted ∷ [])
delete_answer false = replies (not_found ∷ [])

-- The loops of `mget` and `gets`: `show` is the reply for an item that is found.
unfoldable pub get_all :
    (Bytes → Item → Reply) → (ℕ → ℕ) → ℕ → List Bytes → Store → List Reply → Execution
get_all show clock i [] s out = some (s, replies (out ++ end_reply ∷ []))
get_all show clock i (key ∷ keys) s out = elim (get (clock i) key s) [
  | none ↦ none
  | some (s', found) ↦ elim found [
    | none ↦ get_all show clock (i + 1) keys s' out
    | some item ↦ get_all show clock (i + 1) keys s' (out ++ show key item ∷ [])
  ]
]

-- `time.Second`, and the largest TTL in seconds
abbrev pub second : ℕ
second = 1000000000

abbrev pub max_ttl_seconds : ℕ
max_ttl_seconds = (2 ^ 63 - 1) / second

unfoldable pub execute_op : Op → Command → (ℕ → ℕ) → Counters → Store → Execution
unfolding get_all
execute_op op_ping c clock counters s = some (s, replies (pong ∷ []))
execute_op op_stats c clock counters s = some (s, replies (stats_reply counters (stats s) ∷ []))
execute_op op_get c clock counters s = answer (get (clock 0) c.key s) (get_answer c.key)
execute_op op_set c clock counters s =
    if ltb max_ttl_seconds c.ttl_seconds
    then some (s, replies (error_line ttl_too_large ∷ []))
    else answer (set (clock 0) c.key c.value (pos (c.ttl_seconds * second)) s) set_answer
execute_op op_delete c clock counters s = answer (delete (clock 0) c.key s) delete_answer
execute_op op_mget c clock counters s =
    get_all (λ key item. value_reply key item.value) clock 0 c.keys s []
execute_op op_gets c clock counters s =
    get_all (λ key item. gets_reply key item.value item.cas) clock 0 c.keys s []
execute_op op_cas c clock counters s =
    if ltb max_ttl_seconds c.ttl_seconds
    then some (s, replies (error_line ttl_too_large ∷ []))
    else answer (cas (clock 0) c.key c.value (pos (c.ttl_seconds * second)) c.cas s) cas_answer
execute_op op_incr c clock counters s = answer (incr (clock 0) c.key c.delta s) incr_answer
execute_op op_auth c clock counters s = some (s, replies (error_line unknown_command ∷ []))
execute_op op_none c clock counters s = some (s, replies (error_line unknown_command ∷ []))

unfoldable pub execute : Command → (ℕ → ℕ) → Counters → Store → Execution
unfolding execute_op
execute c clock counters s = execute_op c.op c clock counters s
