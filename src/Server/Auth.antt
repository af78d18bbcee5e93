-- ===== src/Server/Auth.antt =====
-- internal/server/server.go: the authentication gate of a connection.
use mini_key_value_store.Prelude.{
  ℕ, suc, ◌+◌, true, false, [], ◌∷◌, Bytes, bytes_discrete, length, ◌≡◌, ◌≢◌, ◌⊎◌, refl, arith,
  Bool-cases, inl, inr,
}
use mini_key_value_store.Protocol.{
  Op, op_auth, op_none, op_get, op_set, op_delete, op_incr, op_ping, op_mget, op_gets, op_cas,
  op_stats, Command, Read, done, eof, protocol_error, panics,
}
use mini_key_value_store.Protocol.Parser.{read_command}
use mini_key_value_store.Server.{Server, with_auth_token}
use mini_key_value_store.Server.Loop.{
  Turn, goes_on, ends, crashes, same_token, is_auth, is_empty, auth_gate, handle, Ended, over,
  panicked, out_of_fuel, serve_from, serve,
}

same_token-eq : (got want : Bytes) → same_token got want ≡ true → got ≡ want
same_token-eq got want h = elim (bytes_discrete got want) [ yes e ↦ e | no n ↦ ground arith ]

is_auth-eq : (op : Op) → is_auth op ≡ true → op ≡ op_auth
is_auth-eq op_auth h = refl
is_auth-eq op_none h = cc
is_auth-eq op_get h = cc
is_auth-eq op_set h = cc
is_auth-eq op_delete h = cc
is_auth-eq op_incr h = cc
is_auth-eq op_ping h = cc
is_auth-eq op_mget h = cc
is_auth-eq op_gets h = cc
is_auth-eq op_cas h = cc
is_auth-eq op_stats h = cc

-- A command that opens the gate of `s`.
abbrev pub Opens : Server → Read Command → Type 0
Opens s (done c) = (c.op ≡ op_auth) × (c.token ≡ s.auth_token)
Opens s eof = ⊥
Opens s (protocol_error m) = ⊥
Opens s panics = ⊥

-- What a turn before authentication may come to.
abbrev pub Guarded : Server → Read Command → Turn → Type 0
Guarded s r (goes_on auth s' rs) = (auth ≡ true) × Opens s r × (s'.store ≡ s.store)
Guarded s r (ends s' rs) = s'.store ≡ s.store
Guarded s r crashes = r ≡ panics

-- A turn of the loop before authentication leaves the store as it is, and goes on, authenticated,
-- only after an AUTH with the token of the server; otherwise it ends the connection, or the read
-- panicked.
pub handle-Guarded :
    (clock : ℕ → ℕ) (r : Read Command) (s : Server) → Guarded s r (handle clock false r s)
unfolding handle auth_gate
handle-Guarded clock eof s = refl
handle-Guarded clock (protocol_error m) s = refl
handle-Guarded clock panics s = refl
handle-Guarded clock (done c) s = elim (Bool-cases (is_auth c.op)) [
  | inr e ↦ rw (handle, auth_gate, e) refl
  | inl e ↦ elim (Bool-cases (same_token c.token s.auth_token)) [
    | inr t ↦ rw (handle, auth_gate, e, t) refl
    | inl t ↦
        rw (handle, auth_gate, e, t)
          (refl, (is_auth-eq c.op e, same_token-eq c.token s.auth_token t), refl)
  ]
]

-- What `Serve` on a server with a token may come to for an input: with the store as it was; with the
-- panic of its first read; or with anything, once that read is an AUTH with the token.
abbrev pub GuardedEnd : ℕ → Bytes → Server → Ended → Type 0
GuardedEnd m input s (over s' rs) = (s'.store ≡ s.store) ⊎ Opens s (read_command m input).0
GuardedEnd m input s panicked =
    ((read_command m input).0 ≡ panics) ⊎ Opens s (read_command m input).0
GuardedEnd m input s out_of_fuel = Opens s (read_command m input).0

Opens-GuardedEnd :
    (m : ℕ) (input : Bytes) (s : Server) (x : Ended)
    → Opens s (read_command m input).0
    → GuardedEnd m input s x
Opens-GuardedEnd m input s (over s' rs) h = inr h
Opens-GuardedEnd m input s panicked h = inr h
Opens-GuardedEnd m input s out_of_fuel h = h

turn-GuardedEnd :
    (m fuel : ℕ) (clock : ℕ → ℕ → ℕ) (s : Server) (input : Bytes) (t : Turn)
    → handle (clock 0) false (read_command m input).0 s ≡ t
    → Guarded s (read_command m input).0 t
    → GuardedEnd m input s (serve_from (suc fuel) m clock 0 false s input [])
unfolding serve_from
turn-GuardedEnd m fuel clock s input crashes e g = rw (serve_from, e) (inl g)
turn-GuardedEnd m fuel clock s input (ends s' rs) e g = rw (serve_from, e) (inl g)
turn-GuardedEnd m fuel clock s input (goes_on auth s' rs) e g = Opens-GuardedEnd m input s _ g.1

is_empty-false : (token : Bytes) → token ≢ [] → is_empty token ≡ false
is_empty-false [] n = absurd (n refl)
is_empty-false (b ∷ bs) n = refl

-- On a server whose token is not empty, a connection of whatever input, from its first byte to its
-- end, leaves the store as it was, unless the first command that it reads is an AUTH with that
-- token; and without one the process panics only if that first read does.
pub serve-GuardedEnd :
    (token : Bytes) (m : ℕ) (clock : ℕ → ℕ → ℕ) (srv : Server) (input : Bytes)
    → token ≢ []
    → GuardedEnd m input
        (with_auth_token token srv)
        (serve m clock (with_auth_token token srv) input)
unfolding serve
serve-GuardedEnd token m clock srv input n =
    let s = with_auth_token token srv in
    let more : length input + 1 ≡ suc (length input) = omega arith in
    rw (serve, is_empty-false token n, more)
      (turn-GuardedEnd m (length input) clock s input _ refl (handle-Guarded (clock 0) _ s))
