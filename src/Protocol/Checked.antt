-- ===== src/Protocol/Checked.antt =====
-- internal/protocol/protocol.go: the checks behind a command that `ReadCommand` returns.
use mini_key_value_store.Prelude.{
  ℕ, ◌≤◌, Bool, true, false, List, [], ◌∷◌, Bytes, length, ◌≡◌, refl, ap, subst, if◌then◌else◌,
  Bool-cases, Option-cases, inl, inr,
}
use mini_key_value_store.Decimal.{max_uint64}
use mini_key_value_store.Protocol.{
  Op, op_none, op_get, op_set, op_delete, op_incr, op_ping, op_auth, op_mget, op_gets, op_cas,
  op_stats, Command, Read, done, eof, protocol_error, panics, delta_number,
}
use mini_key_value_store.Protocol.Reader.{read_line_slice, read_value}
use mini_key_value_store.Protocol.Fields.{fields}
use mini_key_value_store.Protocol.Tokens.{valid_key, all_valid, keys_from_fields, parse_uint_token}
use mini_key_value_store.Protocol.Parser.{
  line_command, with_value, set_command, cas_command, op_command, op_of, fields_command, chop_crlf,
  line_read, read_command,
}
use mini_key_value_store.Protocol.Arguments.{
  Returns, then_read-Returns, parse_uint_token-Returns, any-Returns, IsSetArguments,
  set_arguments-Returns, IsCasArguments, cas_arguments-Returns, keys_from_fields-Returns,
}

-- What the checks promise of a command: its keys or token are valid, and its numbers are of uint64.
abbrev pub Checks : Op → Command → Type 0
Checks op_none c = ⊥
Checks op_ping c = Unit
Checks op_stats c = Unit
Checks op_auth c = valid_key c.token ≡ true
Checks op_get c = valid_key c.key ≡ true
Checks op_delete c = valid_key c.key ≡ true
Checks op_incr c = (valid_key c.key ≡ true) × (c.delta ≤ max_uint64)
Checks op_mget c = (all_valid c.keys ≡ true) × (1 ≤ length c.keys)
Checks op_gets c = (all_valid c.keys ≡ true) × (1 ≤ length c.keys)
Checks op_set c = (valid_key c.key ≡ true) × (c.ttl_seconds ≤ max_uint64)
Checks op_cas c = (valid_key c.key ≡ true) × (c.ttl_seconds ≤ max_uint64) × (c.cas ≤ max_uint64)

abbrev pub IsChecked : Command → Type 0
IsChecked c = Checks c.op c

with_value-Returns :
    (m size : ℕ) (command : Bytes → Command) (input : Bytes)
    → ((value : Bytes) → IsChecked (command value))
    → Returns IsChecked (with_value m size command input).0
unfolding with_value
with_value-Returns m size command input h =
    then_read-Returns (λ _. Unit {0}) IsChecked (read_value m size input).0 _ (any-Returns _)
      (λ v _. h v)

set_command-Returns :
    (m : ℕ) (r : Read (Bytes × ℕ × ℕ)) (input : Bytes)
    → Returns IsSetArguments r
    → Returns IsChecked (set_command m r input).0
unfolding set_command IsSetArguments
set_command-Returns m (done (key, t, size)) input h = with_value-Returns m size _ input (λ _. h)
set_command-Returns m eof input h = tt
set_command-Returns m (protocol_error e) input h = tt
set_command-Returns m panics input h = tt

cas_command-Returns :
    (m : ℕ) (r : Read (Bytes × ℕ × ℕ × ℕ)) (input : Bytes)
    → Returns IsCasArguments r
    → Returns IsChecked (cas_command m r input).0
unfolding cas_command IsCasArguments
cas_command-Returns m (done (key, t, v, size)) input h = with_value-Returns m size _ input (λ _. h)
cas_command-Returns m eof input h = tt
cas_command-Returns m (protocol_error e) input h = tt
cas_command-Returns m panics input h = tt

-- One key, checked.
key_command-Returns :
    (b : Bool) (c : Command) (r : Read Command)
    → (b ≡ true → IsChecked c)
    → Returns IsChecked r
    → Returns IsChecked (if b then done c else r)
key_command-Returns true c r h k = h refl
key_command-Returns false c r h k = k

line_command-Returns :
    (op : Op) (arguments : List Bytes) → Returns IsChecked (line_command op arguments)
unfolding line_command
line_command-Returns op_ping [] = tt
line_command-Returns op_ping (a ∷ more) = tt
line_command-Returns op_stats [] = tt
line_command-Returns op_stats (a ∷ more) = tt
line_command-Returns op_auth [] = tt
line_command-Returns op_auth (token ∷ []) = key_command-Returns (valid_key token) _ _ (λ e. e) tt
line_command-Returns op_auth (a ∷ b ∷ more) = tt
line_command-Returns op_get [] = tt
line_command-Returns op_get (key ∷ []) = key_command-Returns (valid_key key) _ _ (λ e. e) tt
line_command-Returns op_get (a ∷ b ∷ more) = tt
line_command-Returns op_delete [] = tt
line_command-Returns op_delete (key ∷ []) = key_command-Returns (valid_key key) _ _ (λ e. e) tt
line_command-Returns op_delete (a ∷ b ∷ more) = tt
line_command-Returns op_incr [] = tt
line_command-Returns op_incr (a ∷ []) = tt
line_command-Returns op_incr (key ∷ delta ∷ []) = elim (Bool-cases (valid_key key)) [
  | inr e ↦ rw (line_command, e) tt
  | inl e ↦
      rw (line_command, e)
        (then_read-Returns (λ n. n ≤ max_uint64) IsChecked (parse_uint_token delta delta_number) _
          (parse_uint_token-Returns delta delta_number) (λ n le. (e, le)))
]
line_command-Returns op_incr (a ∷ b ∷ c ∷ more) = tt
line_command-Returns op_mget keys =
    then_read-Returns (λ ks. (all_valid ks ≡ true) × (1 ≤ length ks)) IsChecked
      (keys_from_fields keys) _ (keys_from_fields-Returns keys) (λ ks h. h)
line_command-Returns op_gets keys =
    then_read-Returns (λ ks. (all_valid ks ≡ true) × (1 ≤ length ks)) IsChecked
      (keys_from_fields keys) _ (keys_from_fields-Returns keys) (λ ks h. h)
line_command-Returns op_none arguments = tt
line_command-Returns op_set arguments = tt
line_command-Returns op_cas arguments = tt

module _ (m : ℕ) where
  op_command-Returns :
      (op : Op) (arguments : List Bytes) (input : Bytes)
      → Returns IsChecked (op_command m op arguments input).0
  unfolding op_command
  op_command-Returns op_set arguments input =
      set_command-Returns m _ input (set_arguments-Returns arguments)
  op_command-Returns op_cas arguments input =
      cas_command-Returns m _ input (cas_arguments-Returns arguments)
  op_command-Returns op_none arguments input = line_command-Returns op_none arguments
  op_command-Returns op_get arguments input = line_command-Returns op_get arguments
  op_command-Returns op_delete arguments input = line_command-Returns op_delete arguments
  op_command-Returns op_incr arguments input = line_command-Returns op_incr arguments
  op_command-Returns op_ping arguments input = line_command-Returns op_ping arguments
  op_command-Returns op_auth arguments input = line_command-Returns op_auth arguments
  op_command-Returns op_mget arguments input = line_command-Returns op_mget arguments
  op_command-Returns op_gets arguments input = line_command-Returns op_gets arguments
  op_command-Returns op_stats arguments input = line_command-Returns op_stats arguments

  fields_command-Returns :
      (fs : List Bytes) (input : Bytes) → Returns IsChecked (fields_command m fs input).0
  unfolding fields_command
  fields_command-Returns [] input = tt
  fields_command-Returns (name ∷ arguments) input = op_command-Returns (op_of name) arguments input

  line_read-Returns :
      (line : Read Bytes) (input : Bytes) → Returns IsChecked (line_read m line input).0
  unfolding line_read
  line_read-Returns (done bs) input = elim (Option-cases (chop_crlf bs)) [
    | inl e ↦ rw (line_read, e) tt
    | inr (line, e) ↦ rw (line_read, e) (fields_command-Returns (fields line) input)
  ]
  line_read-Returns eof input = tt
  line_read-Returns (protocol_error e) input = tt
  line_read-Returns panics input = tt

  -- A command that a read returns has an operation, its key, keys or token are valid, and its
  -- numbers are of uint64.
  pub read_command-IsChecked :
      (input rest : Bytes) (c : Command) → read_command m input ≡ (done c, rest) → IsChecked c
  unfolding read_command
  read_command-IsChecked input rest c h =
      subst (Returns IsChecked) (ap (λ (p : Read Command × Bytes). p.0) h)
        (line_read-Returns (read_line_slice input).0 (read_line_slice input).1)
