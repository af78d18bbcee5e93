-- ===== src/Protocol/Consumes.antt =====
-- internal/protocol/protocol.go: how much input `ReadCommand` uses up.
use mini_key_value_store.Prelude.{
  ℕ, zero, suc, ◌+◌, ◌≤◌, ◌<◌, List, [], ◌∷◌, Bytes, length, arith, ◌==◌, Bool-cases, Option-cases,
  inl, inr,
}
use mini_key_value_store.Protocol.{
  Op, op_none, op_get, op_set, op_delete, op_incr, op_ping, op_auth, op_mget, op_gets, op_cas,
  op_stats, Command, Read, done, eof, protocol_error, panics,
}
use mini_key_value_store.Protocol.Reader.{
  buffer_size, read_slice, read_line_slice, read_full, make_bytes, read_value,
}
use mini_key_value_store.Protocol.Fields.{fields}
use mini_key_value_store.Protocol.Parser.{
  set_arguments, cas_arguments, with_value, set_command, cas_command, op_command, op_of,
  fields_command, chop_crlf, line_read, read_command,
}

read_slice-le : (n : ℕ) (input : Bytes) → length (read_slice n input).1 ≤ length input
unfolding read_slice
read_slice-le zero input = omega arith
read_slice-le (suc n) [] = omega arith
read_slice-le (suc n) (b ∷ input) = elim (Bool-cases (b == 10)) [
  | inl e ↦ rw (read_slice, e) (omega arith)
  | inr e ↦ rw (read_slice, e) (omega (arith, read_slice-le n input))
]

read_slice-lt :
    (n : ℕ) (input : Bytes)
    → 0 < n
    → 0 < length input
    → length (read_slice n input).1 < length input
unfolding read_slice
read_slice-lt zero input p h = absurd (omega arith)
read_slice-lt (suc n) [] p h = absurd (omega arith)
read_slice-lt (suc n) (b ∷ input) p h = elim (Bool-cases (b == 10)) [
  | inl e ↦ rw (read_slice, e) (omega arith)
  | inr e ↦ rw (read_slice, e) (omega (arith, read_slice-le n input))
]

read_full-le : (n : ℕ) (input : Bytes) → length (read_full n input).1 ≤ length input
unfolding read_full
read_full-le zero input = omega arith
read_full-le (suc n) [] = omega arith
read_full-le (suc n) (b ∷ input) = omega (arith, read_full-le n input)

module _ (m : ℕ) where
  read_value-le : (size : ℕ) (input : Bytes) → length (read_value m size input).1 ≤ length input
  unfolding read_value
  read_value-le size input = elim (Bool-cases (make_bytes m (size + 2))) [
    | inl e ↦ rw (read_value, e) (read_full-le (size + 2) input)
    | inr e ↦ rw (read_value, e) (omega arith)
  ]

  with_value-le :
      (size : ℕ) (command : Bytes → Command) (input : Bytes)
      → length (with_value m size command input).1 ≤ length input
  unfolding with_value
  with_value-le size command input = read_value-le size input

  set_command-le :
      (r : Read (Bytes × ℕ × ℕ)) (input : Bytes) → length (set_command m r input).1 ≤ length input
  unfolding set_command
  set_command-le (done (key, t, size)) input = with_value-le size _ input
  set_command-le eof input = omega arith
  set_command-le (protocol_error e) input = omega arith
  set_command-le panics input = omega arith

  cas_command-le :
      (r : Read (Bytes × ℕ × ℕ × ℕ)) (input : Bytes)
      → length (cas_command m r input).1 ≤ length input
  unfolding cas_command
  cas_command-le (done (key, t, v, size)) input = with_value-le size _ input
  cas_command-le eof input = omega arith
  cas_command-le (protocol_error e) input = omega arith
  cas_command-le panics input = omega arith

  op_command-le :
      (op : Op) (arguments : List Bytes) (input : Bytes)
      → length (op_command m op arguments input).1 ≤ length input
  unfolding op_command
  op_command-le op_set arguments input = set_command-le (set_arguments arguments) input
  op_command-le op_cas arguments input = cas_command-le (cas_arguments arguments) input
  op_command-le op_none arguments input = omega arith
  op_command-le op_get arguments input = omega arith
  op_command-le op_delete arguments input = omega arith
  op_command-le op_incr arguments input = omega arith
  op_command-le op_ping arguments input = omega arith
  op_command-le op_auth arguments input = omega arith
  op_command-le op_mget arguments input = omega arith
  op_command-le op_gets arguments input = omega arith
  op_command-le op_stats arguments input = omega arith

  fields_command-le :
      (fs : List Bytes) (input : Bytes) → length (fields_command m fs input).1 ≤ length input
  unfolding fields_command
  fields_command-le [] input = omega arith
  fields_command-le (name ∷ arguments) input = op_command-le (op_of name) arguments input

  line_read-le :
      (line : Read Bytes) (input : Bytes) → length (line_read m line input).1 ≤ length input
  unfolding line_read
  line_read-le (done bs) input = elim (Option-cases (chop_crlf bs)) [
    | inl e ↦ rw (line_read, e) (omega arith)
    | inr (line, e) ↦ rw (line_read, e) (fields_command-le (fields line) input)
  ]
  line_read-le eof input = omega arith
  line_read-le (protocol_error e) input = omega arith
  line_read-le panics input = omega arith

  -- Each read from a stream that is not at its end leaves less of it, whatever comes of the read,
  -- so the loop of a connection ends.
  pub read_command-lt :
      (input : Bytes) → 0 < length input → length (read_command m input).1 < length input
  unfolding read_command read_line_slice
  read_command-lt input h = omega (
    arith,
    read_slice-lt buffer_size input (omega arith) h,
    line_read-le (read_slice buffer_size input).0 (read_slice buffer_size input).1,
  )
