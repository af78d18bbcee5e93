-- ===== src/Protocol/Values.antt =====
-- internal/protocol/protocol.go: reading keys, numbers and values that were printed.
use mini_key_value_store.Prelude.{
  ℕ, zero, suc, ◌+◌, ◌≤◌, true, some, List, [], ◌∷◌, ◌++◌, Bytes, length, length-append, All, ◌≡◌,
  refl, ap, ◌∙◌, arith, le→ltb_false,
}
use mini_key_value_store.Item.{is_decimal, all_digits}
use mini_key_value_store.Decimal.{max_uint64, format_uint}
use mini_key_value_store.Decimal.Roundtrip.{parse-format_uint, is_decimal-format_uint}
use mini_key_value_store.Protocol.{Number, byte_count, done}
use mini_key_value_store.Protocol.Reader.{max_int, make_bytes, read_full, split_value, read_value}
use mini_key_value_store.Protocol.Tokens.{
  max_key_bytes, no_control, valid_key, all_valid, keys_from_fields, parse_uint_token,
  check_byte_count, parse_byte_count,
}
use mini_key_value_store.Protocol.Lines.{IsPrintable, IsToken, crlf}

pub record IsKey (key : Bytes) : Type 0 where
  pub token : IsToken key
  pub short : length key ≤ max_key_bytes

no_control-IsPrintable : (t : Bytes) → All IsPrintable t → no_control t ≡ true
unfolding no_control
no_control-IsPrintable [] h = refl
no_control-IsPrintable (b ∷ t) h = ground (arith, no_control-IsPrintable t h.1)

pub valid_key-IsKey : (key : Bytes) → IsKey key → valid_key key ≡ true
unfolding valid_key
valid_key-IsKey [] h = absurd (omega (arith, h.token.0))
valid_key-IsKey (b ∷ bs) h =
    rw (le→ltb_false max_key_bytes (length (b ∷ bs)) h.short)
      (no_control-IsPrintable (b ∷ bs) h.token.1)

all_valid-IsKey : (keys : List Bytes) → All IsKey keys → all_valid keys ≡ true
unfolding all_valid
all_valid-IsKey [] h = refl
all_valid-IsKey (key ∷ keys) h = rw (valid_key-IsKey key h.0) (all_valid-IsKey keys h.1)

pub keys_from_fields-IsKey :
    (key : Bytes) (keys : List Bytes)
    → IsKey key
    → All IsKey keys
    → keys_from_fields (key ∷ keys) ≡ done (key ∷ keys)
unfolding keys_from_fields
keys_from_fields-IsKey key keys h hs =
    rw (keys_from_fields, all_valid-IsKey (key ∷ keys) (h, hs)) refl

all_digits-IsPrintable : (t : Bytes) → all_digits t ≡ true → All IsPrintable t
unfolding all_digits
all_digits-IsPrintable [] h = tt
all_digits-IsPrintable (b ∷ t) h = (ground arith, all_digits-IsPrintable t (ground arith))

is_decimal-IsToken : (t : Bytes) → is_decimal t ≡ true → IsToken t
unfolding is_decimal
is_decimal-IsToken [] h = cc
is_decimal-IsToken (b ∷ t) h = (omega arith, all_digits-IsPrintable (b ∷ t) h)

pub format_uint-IsToken : (n : ℕ) → IsToken (format_uint n)
format_uint-IsToken n = is_decimal-IsToken (format_uint n) (is_decimal-format_uint n)

pub parse_uint_token-format_uint :
    (n : ℕ) (name : Number) → n ≤ max_uint64 → parse_uint_token (format_uint n) name ≡ done n
unfolding parse_uint_token
parse_uint_token-format_uint n name h =
    rw (parse_uint_token, is_decimal-format_uint n, parse-format_uint n h) refl

pub parse_byte_count-format_uint : (n : ℕ) → n ≤ max_int → parse_byte_count (format_uint n) ≡ done n
unfolding parse_byte_count
parse_byte_count-format_uint n h =
    rw
      (
        parse_byte_count,
        parse_uint_token-format_uint n byte_count (omega arith),
        check_byte_count,
        le→ltb_false max_int n h,
      )
      refl

read_full-block :
    (n : ℕ) (block rest : Bytes)
    → length block ≡ n
    → read_full n (block ++ rest) ≡ (some block, rest)
unfolding read_full
read_full-block zero [] rest h = refl
read_full-block zero (b ∷ block) rest h = absurd (omega (arith, h))
read_full-block (suc n) [] rest h = absurd (omega (arith, h))
read_full-block (suc n) (b ∷ block) rest h =
    rw (read_full, read_full-block n block rest (omega (arith, h))) refl

split_value-crlf : (value : Bytes) → split_value (length value) (value ++ crlf []) ≡ some value
unfolding split_value
split_value-crlf [] = refl
split_value-crlf (b ∷ value) = rw (split_value, split_value-crlf value) refl

append-crlf : (value rest : Bytes) → value ++ crlf rest ≡ (value ++ crlf []) ++ rest
append-crlf [] rest = refl
append-crlf (b ∷ value) rest = ap (◌∷◌ b) (append-crlf value rest)

-- A value is read back with its size, if the runtime allocates its block.
pub read_value-crlf :
    (max_alloc : ℕ) (value rest : Bytes)
    → length value + 2 ≤ max_alloc
    → length value + 2 ≤ max_int
    → read_value max_alloc (length value) (value ++ crlf rest) ≡ (done value, rest)
unfolding read_value make_bytes
read_value-crlf max_alloc value rest h k =
    let block =
      ap (read_full (length value + 2)) (append-crlf value rest)
      ∙ read_full-block (length value + 2) (value ++ crlf []) rest
          (omega (arith, length-append value (crlf []))) in
    rw
      (
        read_value,
        make_bytes,
        le→ltb_false max_int (length value + 2) k,
        le→ltb_false max_alloc (length value + 2) h,
        block,
        split_value-crlf value,
      )
      refl
