-- ===== src/Server/Loop.antt =====
-- internal/server/server.go: `Serve`, the loop over the commands of a connection.
use mini_key_value_store.Prelude.{
  ℕ, zero, suc, ◌+◌, Bool, true, false, none, some, List, [], ◌∷◌, ◌++◌, Bytes, bytes_discrete, ite,
  if◌then◌else◌, length,
}
use mini_key_value_store.Shard.{add_uint64}
use mini_key_value_store.Protocol.{Op, op_auth, Command, Read, done, eof, protocol_error, panics}
use mini_key_value_store.Protocol.Parser.{read_command}
use mini_key_value_store.Server.{
  Server, bad_command, auth_required, auth_failed, auth_not_configured, Reply, authenticated,
  error_line, count_command,
}
use mini_key_value_store.Server.Execute.{replies, fails, Execution, execute}

-- What a turn of the loop comes to: it goes on, authenticated or not; the connection ends; or the
-- process panics.
pub data Turn : Type 0 where
  goes_on : Bool → Server → List Reply → Turn
  ends : Server → List Reply → Turn
  crashes : Turn

-- `constantTimeEqual`
abbrev pub same_token : Bytes → Bytes → Bool
same_token got want = ite (bytes_discrete got want) true false

abbrev pub is_empty : Bytes → Bool
is_empty [] = true
is_empty (b ∷ bs) = false

abbrev pub is_auth : Op → Bool
is_auth op_auth = true
is_auth _ = false

abbrev pub count_auth : Server → Server
count_auth s = record s {
  counters = record s.counters { cmd_auth = add_uint64 s.counters.cmd_auth 1 };
}

abbrev pub fail_auth : Server → Server
fail_auth s = record s {
  counters = record s.counters { auth_failures = add_uint64 s.counters.auth_failures 1 };
}

-- `handleAuthGate`, with what the loop does with its answer.
unfoldable pub auth_gate : Command → Server → Turn
auth_gate c s =
    if is_auth c.op
    then (if same_token c.token s.auth_token
        then goes_on true (count_auth s) (authenticated ∷ [])
        else ends (fail_auth (count_auth s)) (error_line auth_failed ∷ []))
    else ends s (error_line auth_required ∷ [])

-- AUTH on a connection that needs no more authentication.
unfoldable pub auth_again : Command → Server → Turn
auth_again c s =
    if is_empty s.auth_token
    then ends (count_auth s) (error_line auth_not_configured ∷ [])
    else if same_token c.token s.auth_token
    then goes_on true (count_auth s) (authenticated ∷ [])
    else ends (fail_auth (count_auth s)) (error_line auth_failed ∷ [])

abbrev pub executed : Server → Execution → Turn
executed s none = crashes
executed s (some (store, replies rs)) = goes_on true (record s { store = store }) rs
executed s (some (store, fails e)) =
    ends
      (record s {
        store = store;
        counters = record s.counters { server_errors = add_uint64 s.counters.server_errors 1 };
      })
      []

unfoldable pub run_command : (ℕ → ℕ) → Command → Server → Turn
run_command clock c s =
    let s' = record s { counters = count_command c.op s.counters } in
    executed s' (execute c clock s'.counters s'.store)

unfoldable pub handle : (ℕ → ℕ) → Bool → Read Command → Server → Turn
unfolding auth_gate auth_again run_command
handle clock auth eof s = ends s []
handle clock auth (protocol_error m) s =
    ends
      (record s {
        counters = record s.counters { client_errors = add_uint64 s.counters.client_errors 1 };
      })
      (error_line bad_command ∷ [])
handle clock auth panics s = crashes
handle clock false (done c) s = auth_gate c s
handle clock true (done c) s = if is_auth c.op then auth_again c s else run_command clock c s

-- How the loop ends: the connection is over, the process panics, or the fuel runs out.
pub data Ended : Type 0 where
  over : Server → List Reply → Ended
  panicked : Ended
  out_of_fuel : Ended

-- `clock i` has the readings of the turn with the number `i`, and `out` the replies so far.
unfoldable pub serve_from : ℕ → ℕ → (ℕ → ℕ → ℕ) → ℕ → Bool → Server → Bytes → List Reply → Ended
serve_from zero max_alloc clock i auth s input out = out_of_fuel
serve_from (suc fuel) max_alloc clock i auth s input out =
    let (command, rest) = read_command max_alloc input in
    elim (handle (clock i) auth command s) [
      | crashes ↦ panicked
      | ends s' rs ↦ over s' (out ++ rs)
      | goes_on auth' s' rs ↦ serve_from fuel max_alloc clock (i + 1) auth' s' rest (out ++ rs)
    ]

-- A turn uses up input, so the length of the input bounds the turns.
unfoldable pub serve : ℕ → (ℕ → ℕ → ℕ) → Server → Bytes → Ended
unfolding serve_from handle
serve max_alloc clock s input =
    serve_from (length input + 1) max_alloc clock 0 (is_empty s.auth_token) s input []
