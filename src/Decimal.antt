-- ===== src/Decimal.antt =====
-- `strconv.ParseUint(s, 10, 64)` and `strconv.FormatUint(n, 10)`, as internal/store/shard.go uses
-- them.
pub mod Roundtrip
use mini_key_value_store.Prelude.{
  ℕ, zero, suc, ◌+◌, ◌*◌, ◌-◌, ◌/◌, ◌%◌, ◌^◌, Bytes, [], ◌∷◌, ◌++◌, Option, none, some, true, false,
  ltb, if◌then◌else◌,
}
use mini_key_value_store.Item.{is_digit}

abbrev pub max_uint64 : ℕ
max_uint64 = 2 ^ 64 - 1

-- Digits after the value `n`; past the last value of uint64 the range error is final.
unfoldable pub parse_digits : ℕ → Bytes → Option ℕ
parse_digits n [] = some n
parse_digits n (b ∷ bs) =
    let m = n * 10 + (b - b'0') in
    if is_digit b then (if ltb max_uint64 m then none else parse_digits m bs) else none

unfoldable pub parse_uint : Bytes → Option ℕ
unfolding parse_digits
parse_uint [] = none
parse_uint (b ∷ bs) = parse_digits 0 (b ∷ bs)

-- The digits of `n`, in front of `rest`; `fuel` bounds their number.
unfoldable pub format_digits : ℕ → ℕ → Bytes → Bytes
format_digits zero n rest = rest
format_digits (suc fuel) n rest =
    let rest' = (b'0' + n % 10) ∷ rest in
    elim (ltb n 10) [ true ↦ rest' | false ↦ format_digits fuel (n / 10) rest' ]

-- A uint64 has at most 20 digits.
unfoldable pub format_uint : ℕ → Bytes
unfolding format_digits
format_uint n = format_digits 20 n []
