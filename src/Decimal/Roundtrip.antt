-- ===== src/Decimal/Roundtrip.antt =====
-- Parsing and formatting of the numbers of internal/store/shard.go.
use native.Mathlib.Nat.{pow-suc}
use mini_key_value_store.Prelude.{
  ℕ, zero, suc, ◌+◌, ◌*◌, ◌-◌, ◌/◌, ◌%◌, ◌^◌, ◌≤◌, ◌<◌, Bytes, [], ◌∷◌, some, true, false, ltb, ◌≡◌,
  refl, arith, Bool-cases, inl, inr, ltb→lt, le→ltb_false, sym, ap, ◌∙◌,
}
use mini_key_value_store.Item.{is_digit, is_decimal, all_digits}
use mini_key_value_store.Decimal.{max_uint64, parse_digits, parse_uint, format_digits, format_uint}

parse_digits-le :
    (n : ℕ) (bs : Bytes) (m : ℕ) → n ≤ max_uint64 → parse_digits n bs ≡ some m → m ≤ max_uint64
unfolding parse_digits
parse_digits-le n [] m h e = ground arith
parse_digits-le n (b ∷ bs) m h e = ground (arith, parse_digits-le (n * 10 + (b - b'0')) bs m)

-- A parsed number fits a uint64.
pub parse_uint-le : (bs : Bytes) (m : ℕ) → parse_uint bs ≡ some m → m ≤ max_uint64
unfolding parse_uint
parse_uint-le [] m e = cc
parse_uint-le (b ∷ bs) m e = parse_digits-le 0 (b ∷ bs) m (omega arith) e

digit_test : (d : ℕ) → d < 10 → is_digit (b'0' + d) ≡ true
digit_test d h = ground arith

parse_digit :
    (n d : ℕ) (rest : Bytes)
    → d < 10
    → n * 10 + d ≤ max_uint64
    → parse_digits n ((b'0' + d) ∷ rest) ≡ parse_digits (n * 10 + d) rest
unfolding parse_digits
parse_digit n d rest h m =
    let e : b'0' + d - b'0' ≡ d = omega arith in
    rw e (rw (digit_test d h, le→ltb_false max_uint64 (n * 10 + d) m))

format_last :
    (fuel n : ℕ) (rest : Bytes)
    → ltb n 10 ≡ true
    → format_digits (suc fuel) n rest ≡ (b'0' + n % 10) ∷ rest
unfolding format_digits
format_last fuel n rest t = rw (format_digits, t)

format_more :
    (fuel n : ℕ) (rest : Bytes)
    → ltb n 10 ≡ false
    → format_digits (suc fuel) n rest ≡ format_digits fuel (n / 10) ((b'0' + n % 10) ∷ rest)
unfolding format_digits
format_more fuel n rest t = rw (format_digits, t)

-- The digits of `n` in front of `rest` bring the parser to `rest` with the value `n`.
parse-format_digits :
    (fuel n : ℕ) (rest : Bytes)
    → n < 10 ^ fuel
    → n ≤ max_uint64
    → parse_digits 0 (format_digits fuel n rest) ≡ parse_digits n rest
parse-format_digits zero n rest h m =
    unfold format_digits in ap (λ k. parse_digits k rest) (omega arith)
parse-format_digits (suc fuel) n rest h m = elim (Bool-cases (ltb n 10)) [
  | inl t ↦ rw (format_last fuel n rest t) (
      parse_digit 0 (n % 10) rest (omega arith) (omega arith)
      ∙ ap (λ k. parse_digits k rest) (omega (arith, ltb→lt n 10 t)))
  | inr t ↦ rw (format_more fuel n rest t) (
      parse-format_digits fuel (n / 10) ((b'0' + n % 10) ∷ rest) (omega (arith, pow-suc 10 fuel))
        (omega arith)
      ∙ parse_digit (n / 10) (n % 10) rest (omega arith) (omega arith)
      ∙ ap (λ k. parse_digits k rest) (omega arith))
]

format_digits-cons :
    (fuel n b : ℕ) (rest : Bytes)
    → (c : ℕ) × (cs : Bytes) × (format_digits fuel n (b ∷ rest) ≡ c ∷ cs)
format_digits-cons zero n b rest = (b, rest, format_none)
  where
    format_none : format_digits zero n (b ∷ rest) ≡ b ∷ rest
    format_none = unfold format_digits in refl
format_digits-cons (suc fuel) n b rest = elim (Bool-cases (ltb n 10)) [
  | inl t ↦ (b'0' + n % 10, b ∷ rest, format_last fuel n (b ∷ rest) t)
  | inr t ↦
      let (c, cs, e) = format_digits-cons fuel (n / 10) (b'0' + n % 10) (b ∷ rest) in
      (c, cs, format_more fuel n (b ∷ rest) t ∙ e)
]

pub format_uint-cons : (n : ℕ) → (c : ℕ) × (cs : Bytes) × (format_uint n ≡ c ∷ cs)
unfolding format_uint
format_uint-cons n = elim (Bool-cases (ltb n 10)) [
  | inl t ↦ (b'0' + n % 10, [], format_last 19 n [] t)
  | inr t ↦
      let (c, cs, e) = format_digits-cons 19 (n / 10) (b'0' + n % 10) [] in
      (c, cs, format_more 19 n [] t ∙ e)
]

-- Every uint64 is read back from the decimal that it is printed as.
pub parse-format_uint : (n : ℕ) → n ≤ max_uint64 → parse_uint (format_uint n) ≡ some n
unfolding parse_uint format_uint
parse-format_uint n h =
    let (c, cs, e) = format_uint-cons n in
    rw e (
      ap (parse_digits 0) (sym e)
      ∙ parse-format_digits 20 n [] (omega arith) h
      ∙ (unfold parse_digits in refl))

all_digits-cons :
    (d : ℕ) (rest : Bytes) → d < 10 → all_digits rest ≡ true → all_digits ((b'0' + d) ∷ rest) ≡ true
unfolding all_digits
all_digits-cons d rest lt h = rw (digit_test d lt) h

all_digits-format_digits :
    (fuel n : ℕ) (rest : Bytes)
    → all_digits rest ≡ true
    → all_digits (format_digits fuel n rest) ≡ true
all_digits-format_digits zero n rest h = unfold format_digits in h
all_digits-format_digits (suc fuel) n rest h = elim (Bool-cases (ltb n 10)) [
  | inl t ↦ rw (format_last fuel n rest t) (all_digits-cons (n % 10) rest (omega arith) h)
  | inr t ↦ rw (format_more fuel n rest t) (
      all_digits-format_digits fuel (n / 10) ((b'0' + n % 10) ∷ rest)
        (all_digits-cons (n % 10) rest (omega arith) h))
]

-- What is printed is a decimal for `isDecimal`.
pub is_decimal-format_uint : (n : ℕ) → is_decimal (format_uint n) ≡ true
unfolding is_decimal
is_decimal-format_uint n =
    let (c, cs, e) = format_uint-cons n in
    rw e (
      ap all_digits (sym e)
      ∙ (unfold format_uint in all_digits-format_digits 20 n [] (unfold all_digits in refl)))
