-- ===== src/Protocol/Parser.antt =====
-- internal/protocol/protocol.go: `ReadCommand`. It takes the input that is left and returns the
-- command and what is left after it; `max_alloc` is the most bytes that the runtime allocates.
use mini_key_value_store.Prelude.{
  ℕ, Option, none, some, List, [], ◌∷◌, Bytes, bytes_discrete, ite, ◌==◌, if◌then◌else◌,
}
use mini_key_value_store.Protocol.{
  Op, ttl_number, delta_number, version_number, op_none, op_get, op_set, op_delete, op_incr,
  op_ping, op_auth, op_mget, op_gets, op_cas, op_stats, Command, no_command, line_needs_crlf,
  empty_command, usage, unknown_command, Read, done, eof, protocol_error, panics, then_read,
}
use mini_key_value_store.Protocol.Name
use mini_key_value_store.Protocol.Reader.{read_line_slice, read_value}
use mini_key_value_store.Protocol.Fields.{fields, to_lower}
use mini_key_value_store.Protocol.Tokens.{
  valid_key, valid_token, keys_from_fields, parse_uint_token, parse_byte_count,
}

-- The `switch` on the name of the command.
abbrev pub commands : List (Bytes × Op)
commands =
    (Name.ping, op_ping)
    ∷ (Name.auth, op_auth)
    ∷ (Name.get, op_get)
    ∷ (Name.set, op_set)
    ∷ (Name.delete, op_delete)
    ∷ (Name.incr, op_incr)
    ∷ (Name.stats, op_stats)
    ∷ (Name.mget, op_mget)
    ∷ (Name.gets, op_gets)
    ∷ (Name.cas, op_cas)
    ∷ []

unfoldable pub find_op : Bytes → List (Bytes × Op) → Op
find_op s [] = op_none
find_op s ((name, op) ∷ rest) = ite (bytes_discrete s name) op (find_op s rest)

unfoldable pub op_of : Bytes → Op
unfolding find_op to_lower
op_of name = find_op (to_lower name) commands

-- The arguments of `set`: the key, the TTL and the size of the value.
unfoldable pub set_arguments : List Bytes → Read (Bytes × ℕ × ℕ)
set_arguments (key ∷ size ∷ []) =
    if valid_key key
    then then_read (parse_byte_count size) (λ n. done (key, 0, n))
    else protocol_error (usage op_set)
set_arguments (key ∷ ttl ∷ size ∷ []) =
    if valid_key key
    then then_read (parse_uint_token ttl ttl_number)
        (λ t. then_read (parse_byte_count size) (λ n. done (key, t, n)))
    else protocol_error (usage op_set)
set_arguments _ = protocol_error (usage op_set)

-- The arguments of `cas`: the key, the TTL, the version and the size of the value.
unfoldable pub cas_arguments : List Bytes → Read (Bytes × ℕ × ℕ × ℕ)
cas_arguments (key ∷ version ∷ size ∷ []) =
    if valid_key key
    then then_read (parse_uint_token version version_number)
        (λ v. then_read (parse_byte_count size) (λ n. done (key, 0, v, n)))
    else protocol_error (usage op_cas)
cas_arguments (key ∷ ttl ∷ version ∷ size ∷ []) =
    if valid_key key
    then then_read (parse_uint_token ttl ttl_number) (λ t.
      then_read (parse_uint_token version version_number)
        (λ v. then_read (parse_byte_count size) (λ n. done (key, t, v, n))))
    else protocol_error (usage op_cas)
cas_arguments _ = protocol_error (usage op_cas)

-- The commands of one line.
unfoldable pub line_command : Op → List Bytes → Read Command
line_command op_ping [] = done (record no_command { op = op_ping })
line_command op_auth (token ∷ []) =
    if valid_token token
    then done (record no_command { op = op_auth; token = token })
    else protocol_error (usage op_auth)
line_command op_get (key ∷ []) =
    if valid_key key
    then done (record no_command { op = op_get; key = key })
    else protocol_error (usage op_get)
line_command op_delete (key ∷ []) =
    if valid_key key
    then done (record no_command { op = op_delete; key = key })
    else protocol_error (usage op_delete)
line_command op_incr (key ∷ delta ∷ []) =
    if valid_key key
    then then_read (parse_uint_token delta delta_number)
        (λ n. done (record no_command { op = op_incr; key = key; delta = n }))
    else protocol_error (usage op_incr)
line_command op_stats [] = done (record no_command { op = op_stats })
line_command op_mget keys =
    then_read (keys_from_fields keys) (λ ks. done (record no_command { op = op_mget; keys = ks }))
line_command op_gets keys =
    then_read (keys_from_fields keys) (λ ks. done (record no_command { op = op_gets; keys = ks }))
line_command op_none _ = protocol_error unknown_command
line_command op _ = protocol_error (usage op)

-- A command with a value: the rest of its arguments with the value that follows the line.
unfoldable pub with_value : ℕ → ℕ → (Bytes → Command) → Bytes → Read Command × Bytes
unfolding read_value
with_value max_alloc size command input =
    let (value, rest) = read_value max_alloc size input in
    (then_read value (λ v. done (command v)), rest)

unfoldable pub set_command : ℕ → Read (Bytes × ℕ × ℕ) → Bytes → Read Command × Bytes
set_command max_alloc (done (key, ttl, size)) input =
    with_value max_alloc size
      (λ v. record no_command { op = op_set; key = key; value = v; ttl_seconds = ttl }) input
set_command max_alloc eof input = (eof, input)
set_command max_alloc (protocol_error m) input = (protocol_error m, input)
set_command max_alloc panics input = (panics, input)

unfoldable pub cas_command : ℕ → Read (Bytes × ℕ × ℕ × ℕ) → Bytes → Read Command × Bytes
cas_command max_alloc (done (key, ttl, version, size)) input =
    with_value max_alloc size
      (λ v. record no_command {
        op = op_cas;
        key = key;
        value = v;
        ttl_seconds = ttl;
        cas = version;
      })
      input
cas_command max_alloc eof input = (eof, input)
cas_command max_alloc (protocol_error m) input = (protocol_error m, input)
cas_command max_alloc panics input = (panics, input)

unfoldable pub op_command : ℕ → Op → List Bytes → Bytes → Read Command × Bytes
unfolding set_command set_arguments cas_command cas_arguments line_command
op_command max_alloc op_set arguments input = set_command max_alloc (set_arguments arguments) input
op_command max_alloc op_cas arguments input = cas_command max_alloc (cas_arguments arguments) input
op_command max_alloc op arguments input = (line_command op arguments, input)

unfoldable pub fields_command : ℕ → List Bytes → Bytes → Read Command × Bytes
unfolding op_command op_of
fields_command max_alloc [] input = (protocol_error empty_command, input)
fields_command max_alloc (name ∷ arguments) input =
    op_command max_alloc (op_of name) arguments input

-- The line without its CRLF.
unfoldable pub chop_crlf : Bytes → Option Bytes
chop_crlf [] = none
chop_crlf (a ∷ []) = none
chop_crlf (a ∷ b ∷ []) = if a == 13 then some [] else none
chop_crlf (a ∷ b ∷ c ∷ bs) = elim (chop_crlf (b ∷ c ∷ bs)) [
  | none ↦ none
  | some line ↦ some (a ∷ line)
]

unfoldable pub line_read : ℕ → Read Bytes → Bytes → Read Command × Bytes
unfolding fields_command chop_crlf fields
line_read max_alloc (done bs) input = elim (chop_crlf bs) [
  | none ↦ (protocol_error line_needs_crlf, input)
  | some line ↦ fields_command max_alloc (fields line) input
]
line_read max_alloc eof input = (eof, input)
line_read max_alloc (protocol_error m) input = (protocol_error m, input)
line_read max_alloc panics input = (panics, input)

unfoldable pub read_command : ℕ → Bytes → Read Command × Bytes
unfolding line_read read_line_slice
read_command max_alloc input =
    let (line, rest) = read_line_slice input in line_read max_alloc line rest
