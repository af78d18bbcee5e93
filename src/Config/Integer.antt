-- ===== src/Config/Integer.antt =====
-- `strconv.Atoi`, as internal/config/config.go uses it, with int of 64 bits.
use mini_key_value_store.Prelude.{
  ℕ, zero, suc, ◌+◌, ◌*◌, ◌-◌, ◌^◌, Bool, true, false, Bytes, [], ◌∷◌, ◌==◌, ltb, leb,
  if◌then◌else◌, ℤ, pos, negsuc, Outcome, returns, fails, and_then,
}
use mini_key_value_store.Item.{is_digit}

pub data IntegerError : Type 0 where
  invalid_syntax value_out_of_range : IntegerError

-- `-n`
abbrev pub negate : ℕ → ℤ
negate zero = pos 0
negate (suc n) = negsuc n

-- The digits after the value `n`. The first byte that is no digit, or the first digit that takes the
-- value past uint64, ends the parse.
unfoldable pub scan_uint : ℕ → Bytes → Outcome IntegerError ℕ
scan_uint n [] = returns n
scan_uint n (b ∷ bs) =
    let m = n * 10 + (b - b'0') in
    let rest = scan_uint m bs in
    if is_digit b
    then (if ltb m (2 ^ 64) then rest else fails value_out_of_range)
    else fails invalid_syntax

abbrev pub uint_of : Bytes → Outcome IntegerError ℕ
uint_of [] = fails invalid_syntax
uint_of (b ∷ bs) = scan_uint 0 (b ∷ bs)

-- The value with its sign, if it fits an int64.
unfoldable pub with_sign : Bool → ℕ → Outcome IntegerError ℤ
with_sign true n = if leb n (2 ^ 63) then returns (negate n) else fails value_out_of_range
with_sign false n = if ltb n (2 ^ 63) then returns (pos n) else fails value_out_of_range

unfoldable pub atoi : Bytes → Outcome IntegerError ℤ
unfolding scan_uint with_sign
atoi [] = fails invalid_syntax
atoi (b ∷ bs) =
    if b == b'-'
    then and_then (uint_of bs) (with_sign true)
    else if b == b'+'
    then and_then (uint_of bs) (with_sign false)
    else and_then (uint_of (b ∷ bs)) (with_sign false)
