-- ===== src/Protocol/Tokens.antt =====
-- internal/protocol/protocol.go: keys and numbers on a command line. A byte of 128 or more is part of a
-- character that is allowed in a key and is no digit, so the loops over characters are loops over
-- bytes here.
use mini_key_value_store.Prelude.{
  ℕ, Bool, true, false, not, ◌&&◌, ◌||◌, none, some, List, [], ◌∷◌, Bytes, length, ltb, leb, ◌==◌,
  if◌then◌else◌,
}
use mini_key_value_store.Decimal.{parse_uint}
use mini_key_value_store.Item.{is_decimal}
use mini_key_value_store.Protocol.{
  Number, byte_count, keys_required, invalid_key, not_unsigned, too_large, Read, done, eof,
  protocol_error, panics,
}
use mini_key_value_store.Protocol.Reader.{max_int}

abbrev pub max_key_bytes : ℕ
max_key_bytes = 250

-- The loop of `validKey`.
unfoldable pub no_control : Bytes → Bool
no_control [] = true
no_control (b ∷ bs) = not (leb b 32 || b == 127) && no_control bs

unfoldable pub valid_key : Bytes → Bool
unfolding no_control
valid_key [] = false
valid_key (b ∷ bs) = if ltb max_key_bytes (length (b ∷ bs)) then false else no_control (b ∷ bs)

abbrev pub valid_token : Bytes → Bool
valid_token token = valid_key token

unfoldable pub all_valid : List Bytes → Bool
all_valid [] = true
all_valid (key ∷ keys) = valid_key key && all_valid keys

unfoldable pub keys_from_fields : List Bytes → Read (List Bytes)
unfolding all_valid
keys_from_fields [] = protocol_error keys_required
keys_from_fields (key ∷ keys) =
    if all_valid (key ∷ keys) then done (key ∷ keys) else protocol_error invalid_key

unfoldable pub parse_uint_token : Bytes → Number → Read ℕ
parse_uint_token token name = elim (is_decimal token) [
  | false ↦ protocol_error (not_unsigned name)
  | true ↦ elim (parse_uint token) [ none ↦ protocol_error (too_large name) | some n ↦ done n ]
]

unfoldable pub check_byte_count : Read ℕ → Read ℕ
check_byte_count (done n) = if ltb max_int n then protocol_error (too_large byte_count) else done n
check_byte_count eof = eof
check_byte_count (protocol_error m) = protocol_error m
check_byte_count panics = panics

unfoldable pub parse_byte_count : Bytes → Read ℕ
unfolding parse_uint_token check_byte_count
parse_byte_count token = check_byte_count (parse_uint_token token byte_count)
