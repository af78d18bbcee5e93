-- ===== src/Server/Conn.antt =====
-- internal/server/server.go: `serveConn`, the loop with deadlines for its reads, and `handleReadError`.
use mini_key_value_store.Prelude.{
  ℕ, zero, suc, ◌+◌, Bool, true, false, not, none, some, if◌then◌else◌, Bool-cases, inl, inr, List,
  [], ◌∷◌, ◌++◌, Bytes, length, ◌≡◌, refl, ap, ◌∙◌,
}
use mini_key_value_store.Shard.{add_uint64}
use mini_key_value_store.Protocol.{Command, Read, done, eof, protocol_error, panics}
use mini_key_value_store.Protocol.Parser.{read_command}
use mini_key_value_store.Server.{
  Server, bad_command, auth_failed, auth_not_configured, authenticated, Reply, error_line,
  count_command,
}
use mini_key_value_store.Server.Execute.{replies, fails, Execution, execute}
use mini_key_value_store.Server.Loop.{
  same_token, is_auth, auth_gate, auth_again, executed, run_command, Turn, goes_on, ends, crashes,
  is_empty, handle, Ended, over, panicked, out_of_fuel, serve_from, serve,
}

-- What a read past the bytes that arrive comes to: the end of the stream, a deadline (the idle timeout
-- or that of a shutdown), or another error.
pub data StreamEnd : Type 0 where
  closed deadline broken : StreamEnd

-- `handleReadError`, for an error that is not of the protocol.
unfoldable pub handle_read_error : StreamEnd → Server → Turn
handle_read_error closed s = ends s []
handle_read_error deadline s = ends s []
handle_read_error broken s =
    ends
      (record s {
        counters = record s.counters { client_errors = add_uint64 s.counters.client_errors 1 };
      })
      (error_line bad_command ∷ [])

-- An `auth` on a connection that is authenticated.
unfoldable pub conn_auth : Command → Server → Turn
conn_auth c s =
    let s' = record s {
      counters = record s.counters { cmd_auth = add_uint64 s.counters.cmd_auth 1 };
    } in
    if is_empty s'.auth_token
    then ends s' (error_line auth_not_configured ∷ [])
    else if not (same_token c.token s'.auth_token)
    then ends
        (record s' {
          counters = record s'.counters { auth_failures = add_uint64 s'.counters.auth_failures 1 };
        })
        (error_line auth_failed ∷ [])
    else goes_on true s' (authenticated ∷ [])

-- Another command: it is counted and executed.
abbrev conn_executed : Server → Execution → Turn
conn_executed s none = crashes
conn_executed s (some (store, replies rs)) = goes_on true (record s { store = store }) rs
conn_executed s (some (store, fails e)) =
    ends
      (record s {
        store = store;
        counters = record s.counters { server_errors = add_uint64 s.counters.server_errors 1 };
      })
      []

unfoldable pub conn_command : (ℕ → ℕ) → Command → Server → Turn
conn_command clock c s =
    let s' = record s { counters = count_command c.op s.counters } in
    conn_executed s' (execute c clock s'.counters s'.store)

-- A turn of the loop: `eof` stands for the error of the stream outside a value. Inside one, the parser
-- makes an error of the protocol of it.
unfoldable pub handle_conn : StreamEnd → (ℕ → ℕ) → Bool → Read Command → Server → Turn
unfolding handle_read_error conn_auth conn_command
handle_conn end clock auth eof s = handle_read_error end s
handle_conn end clock auth (protocol_error m) s = handle_read_error broken s
handle_conn end clock auth panics s = crashes
handle_conn end clock false (done c) s = auth_gate c s
handle_conn end clock true (done c) s =
    if is_auth c.op then conn_auth c s else conn_command clock c s

unfoldable pub serve_conn_from :
    StreamEnd → ℕ → ℕ → (ℕ → ℕ → ℕ) → ℕ → Bool → Server → Bytes → List Reply → Ended
serve_conn_from end zero max_alloc clock i auth s input out = out_of_fuel
serve_conn_from end (suc fuel) max_alloc clock i auth s input out =
    let (command, rest) = read_command max_alloc input in
    elim (handle_conn end (clock i) auth command s) [
      | crashes ↦ panicked
      | ends s' rs ↦ over s' (out ++ rs)
      | goes_on auth' s' rs ↦
          serve_conn_from end fuel max_alloc clock (i + 1) auth' s' rest (out ++ rs)
    ]

unfoldable pub serve_conn : StreamEnd → ℕ → (ℕ → ℕ → ℕ) → Server → Bytes → Ended
unfolding serve_conn_from handle_conn
serve_conn end max_alloc clock s input =
    serve_conn_from end (length input + 1) max_alloc clock 0 (is_empty s.auth_token) s input []

-- The stream ends as a stream does for `Serve`, or by a deadline.
abbrev IsQuiet : StreamEnd → Type 0
IsQuiet closed = Unit
IsQuiet deadline = Unit
IsQuiet broken = ⊥

conn_auth-again : (c : Command) (s : Server) → conn_auth c s ≡ auth_again c s
unfolding conn_auth auth_again
conn_auth-again c s = elim (Bool-cases (is_empty s.auth_token)) [
  | inl e ↦ rw (conn_auth, auth_again, e) refl
  | inr e ↦ elim (Bool-cases (same_token c.token s.auth_token)) [
    | inl t ↦ rw (conn_auth, auth_again, e, t) refl
    | inr t ↦ rw (conn_auth, auth_again, e, t) refl
  ]
]

conn_executed-eq : (s : Server) (x : Execution) → conn_executed s x ≡ executed s x
conn_executed-eq s none = refl
conn_executed-eq s (some (store, replies rs)) = refl
conn_executed-eq s (some (store, fails e)) = refl

conn_command-run :
    (clock : ℕ → ℕ) (c : Command) (s : Server) → conn_command clock c s ≡ run_command clock c s
unfolding conn_command run_command
conn_command-run clock c s =
    conn_executed-eq (record s { counters = count_command c.op s.counters }) _

handle_conn-handle :
    (end : StreamEnd) (clock : ℕ → ℕ) (auth : Bool) (r : Read Command) (s : Server)
    → IsQuiet end
    → handle_conn end clock auth r s ≡ handle clock auth r s
unfolding handle_conn handle_read_error handle
handle_conn-handle closed clock auth eof s q = refl
handle_conn-handle deadline clock auth eof s q = refl
handle_conn-handle broken clock auth eof s q = absurd q
handle_conn-handle end clock auth (protocol_error m) s q = refl
handle_conn-handle end clock auth panics s q = refl
handle_conn-handle end clock false (done c) s q = refl
handle_conn-handle end clock true (done c) s q =
    ap (λ t. if is_auth c.op then t else run_command clock c s) (conn_auth-again c s)
    ∙ ap (λ t. if is_auth c.op then auth_again c s else t) (conn_command-run clock c s)

module _ (end : StreamEnd) (q : IsQuiet end) (m : ℕ) (clock : ℕ → ℕ → ℕ) where
  abbrev conn_turn : ℕ → ℕ → Bytes → List Reply → Turn → Ended
  conn_turn fuel i rest out crashes = panicked
  conn_turn fuel i rest out (ends s rs) = over s (out ++ rs)
  conn_turn fuel i rest out (goes_on auth s rs) =
      serve_conn_from end fuel m clock (i + 1) auth s rest (out ++ rs)

  abbrev turn : ℕ → ℕ → Bytes → List Reply → Turn → Ended
  turn fuel i rest out crashes = panicked
  turn fuel i rest out (ends s rs) = over s (out ++ rs)
  turn fuel i rest out (goes_on auth s rs) = serve_from fuel m clock (i + 1) auth s rest (out ++ rs)

  same_turn :
      (fuel i : ℕ) (rest : Bytes) (out : List Reply) (t : Turn)
      → ((auth : Bool) (s : Server) (rs : List Reply)
          → serve_conn_from end fuel m clock (i + 1) auth s rest (out ++ rs)
            ≡ serve_from fuel m clock (i + 1) auth s rest (out ++ rs))
      → conn_turn fuel i rest out t ≡ turn fuel i rest out t
  same_turn fuel i rest out crashes h = refl
  same_turn fuel i rest out (ends s rs) h = refl
  same_turn fuel i rest out (goes_on auth s rs) h = h auth s rs

  serve_conn_from-serve_from :
      (fuel i : ℕ) (auth : Bool) (s : Server) (input : Bytes) (out : List Reply)
      → serve_conn_from end fuel m clock i auth s input out
        ≡ serve_from fuel m clock i auth s input out
  unfolding serve_conn_from serve_from
  serve_conn_from-serve_from zero i auth s input out = refl
  serve_conn_from-serve_from (suc fuel) i auth s input out =
      ap (conn_turn fuel i (read_command m input).1 out)
        (handle_conn-handle end (clock i) auth (read_command m input).0 s q)
      ∙ same_turn fuel i (read_command m input).1 out
          (handle (clock i) auth (read_command m input).0 s)
          (λ auth' s' rs.
            serve_conn_from-serve_from fuel (i + 1) auth' s' (read_command m input).1 (out ++ rs))

-- On a stream that ends as a stream for `Serve` does, or at which a deadline passes instead,
-- `serveConn` comes to what `Serve` does on the same bytes: the same replies, the same server, or
-- the same panic.
pub serve_conn-serve :
    (m : ℕ) (clock : ℕ → ℕ → ℕ) (s : Server) (input : Bytes)
    → (serve_conn closed m clock s input ≡ serve m clock s input)
      × (serve_conn deadline m clock s input ≡ serve m clock s input)
unfolding serve_conn serve
serve_conn-serve m clock s input = (
  serve_conn_from-serve_from closed tt m clock (length input + 1) 0 (is_empty s.auth_token) s input
      [],
  serve_conn_from-serve_from deadline tt m clock (length input + 1) 0 (is_empty s.auth_token) s
      input [],
)
