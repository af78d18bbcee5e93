-- ===== src/Server/Ends.antt =====
-- internal/server/server.go: the end of the loop of a connection.
use mini_key_value_store.Prelude.{
  All, ◌^◌, ℕ, zero, suc, ◌+◌, ◌≤◌, ◌<◌, Bool, true, false, List, [], ◌∷◌, ◌++◌, Bytes, length, ◌≡◌,
  refl, subst, arith, Bool-cases, inl, inr,
}
use mini_key_value_store.Shard.{Shard}
use mini_key_value_store.Shard.Repr.{Limits}
use mini_key_value_store.Store.Valid.{IsValid}
use mini_key_value_store.Protocol.{Command, Read, done, eof, protocol_error, panics}
use mini_key_value_store.Protocol.Parser.{read_command, line_read}
use mini_key_value_store.Protocol.Reader.{read_line_slice, read_slice}
use mini_key_value_store.Protocol.Tokens.{max_key_bytes}
use mini_key_value_store.Protocol.Consumes.{read_command-lt}
use mini_key_value_store.Server.{Server, Reply, count_command}
use mini_key_value_store.Server.Runs.{execute-Runs}
use mini_key_value_store.Server.Loop.{
  Turn, goes_on, ends, crashes, same_token, is_auth, is_empty, auth_gate, auth_again, run_command,
  handle, Ended, over, panicked, out_of_fuel, serve_from, serve,
}

module _ (lim : Limits) (n : ℕ) where
  abbrev pub ServerValid : Server → Type 0
  ServerValid s = IsValid lim n s.store

  -- A turn keeps the store valid, and a panic or the end of the stream is one of the read.
  abbrev Sound : Read Command → Turn → Type 0
  Sound r (goes_on auth s rs) = ServerValid s × (c : Command) × (r ≡ done c)
  Sound r (ends s rs) = ServerValid s
  Sound r crashes = r ≡ panics

  auth_gate-Sound : (c : Command) (s : Server) → ServerValid s → Sound (done c) (auth_gate c s)
  unfolding auth_gate
  auth_gate-Sound c s v = elim (Bool-cases (is_auth c.op)) [
    | inr e ↦ rw (auth_gate, e) v
    | inl e ↦ elim (Bool-cases (same_token c.token s.auth_token)) [
      | inr t ↦ rw (auth_gate, e, t) v
      | inl t ↦ rw (auth_gate, e, t) (v, c, refl)
    ]
  ]

  auth_again-Sound : (c : Command) (s : Server) → ServerValid s → Sound (done c) (auth_again c s)
  unfolding auth_again
  auth_again-Sound c s v = elim (Bool-cases (is_empty s.auth_token)) [
    | inl e ↦ rw (auth_again, e) v
    | inr e ↦ elim (Bool-cases (same_token c.token s.auth_token)) [
      | inr t ↦ rw (auth_again, e, t) v
      | inl t ↦ rw (auth_again, e, t) (v, c, refl)
    ]
  ]

  run_command-Sound :
      (clock : ℕ → ℕ) (c : Command) (s : Server)
      → ServerValid s
      → Sound (done c) (run_command clock c s)
  unfolding run_command
  run_command-Sound clock c s v =
      let (store, rs, e, w) =
        execute-Runs lim n c clock (count_command c.op s.counters) s.store v in
      rw (run_command, e) (w, c, refl)

  handle-Sound :
      (clock : ℕ → ℕ) (auth : Bool) (r : Read Command) (s : Server)
      → ServerValid s
      → Sound r (handle clock auth r s)
  unfolding handle
  handle-Sound clock auth eof s v = v
  handle-Sound clock auth (protocol_error m) s v = v
  handle-Sound clock auth panics s v = refl
  handle-Sound clock false (done c) s v = auth_gate-Sound c s v
  handle-Sound clock true (done c) s v = elim (Bool-cases (is_auth c.op)) [
    | inl e ↦ rw (handle, e) (auth_again-Sound c s v)
    | inr e ↦ rw (handle, e) (run_command-Sound clock c s v)
  ]

  -- How the loop may end: with a valid store, or with the panic of a read of what was left.
  abbrev pub EndsWell : ℕ → Bytes → Ended → Type 0
  EndsWell m input (over s out) = ServerValid s
  EndsWell m input panicked =
      (left : Bytes) × (length left ≤ length input) × ((read_command m left).0 ≡ panics)
  EndsWell m input out_of_fuel = ⊥

  EndsWell-le :
      (m : ℕ) (rest input : Bytes) (x : Ended)
      → length rest ≤ length input
      → EndsWell m rest x
      → EndsWell m input x
  EndsWell-le m rest input (over s out) le h = h
  EndsWell-le m rest input panicked le (left, k, p) = (left, omega (arith, k, le), p)
  EndsWell-le m rest input out_of_fuel le h = h

  read-nonempty :
      (m : ℕ) (input : Bytes) (c : Command) → (read_command m input).0 ≡ done c → 0 < length input
  unfolding read_command read_line_slice read_slice line_read
  read-nonempty m [] c h = cc
  read-nonempty m (b ∷ input) c h = omega arith

  module _ (m : ℕ) (clock : ℕ → ℕ → ℕ) where
    -- One turn, if the turns after it end well.
    turn-EndsWell :
        (fuel i : ℕ) (auth : Bool) (s : Server) (input : Bytes) (out : List Reply)
        → ServerValid s
        → ((auth' : Bool) (s' : Server) (rest : Bytes) (out' : List Reply)
            → ServerValid s'
            → length rest < length input
            → EndsWell m rest (serve_from fuel m clock (i + 1) auth' s' rest out'))
        → (t : Turn) → handle (clock i) auth (read_command m input).0 s ≡ t
        → EndsWell m input (serve_from (suc fuel) m clock i auth s input out)
    unfolding serve_from
    turn-EndsWell fuel i auth s input out v after crashes e =
        let sound = subst (Sound (read_command m input).0) e (handle-Sound (clock i) auth _ s v) in
        rw (serve_from, e) (input, omega arith, sound)
    turn-EndsWell fuel i auth s input out v after (ends s' rs) e =
        let sound = subst (Sound (read_command m input).0) e (handle-Sound (clock i) auth _ s v) in
        rw (serve_from, e) sound
    turn-EndsWell fuel i auth s input out v after (goes_on auth' s' rs) e =
        let (v', c, q) =
          subst (Sound (read_command m input).0) e (handle-Sound (clock i) auth _ s v) in
        let less = read_command-lt m input (read-nonempty m input c q) in
        rw (serve_from, e)
          (EndsWell-le m (read_command m input).1 input _ (omega (arith, less))
            (after auth' s' (read_command m input).1 (out ++ rs) v' less))

    serve_from-EndsWell :
        (fuel i : ℕ) (auth : Bool) (s : Server) (input : Bytes) (out : List Reply)
        → ServerValid s
        → length input < fuel
        → EndsWell m input (serve_from fuel m clock i auth s input out)
    serve_from-EndsWell zero i auth s input out v f = absurd (omega arith)
    serve_from-EndsWell (suc fuel) i auth s input out v f =
        turn-EndsWell fuel i auth s input out v
          (λ auth' s' rest out' v' less.
            serve_from-EndsWell fuel (i + 1) auth' s' rest out' v' (omega (arith, less, f)))
          (handle (clock i) auth (read_command m input).0 s) refl

  -- On a server with a valid store, `Serve` of any input comes to an end within its fuel: the
  -- connection is over and the store valid, or the process panicked in a read of a part of the
  -- stream no longer than the input.
  pub serve-EndsWell :
      (m : ℕ) (clock : ℕ → ℕ → ℕ) (s : Server) (input : Bytes)
      → ServerValid s
      → EndsWell m input (serve m clock s input)
  unfolding serve
  serve-EndsWell m clock s input v =
      serve_from-EndsWell m clock (length input + 1) 0 (is_empty s.auth_token) s input [] v
        (omega arith)

  -- An item with the longest key and value of a command has a size that an `int` holds together with
  -- the memory.
  abbrev pub HasHeadroom : Shard → Type 0
  HasHeadroom sh =
      sh.memory_bytes + (max_key_bytes + sh.max_value_bytes + sh.item_overhead_bytes) < 2 ^ 63

  abbrev pub EndsInRange : ℕ → Bytes → Ended → Type 0
  EndsInRange m input (over s out) = ServerValid s × All HasHeadroom s.store.shards
  EndsInRange m input panicked = EndsWell m input panicked
  EndsInRange m input out_of_fuel = ⊥
