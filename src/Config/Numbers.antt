-- ===== src/Config/Numbers.antt =====
-- internal/config/config.go: reading the numbers and durations of a printed file.
use mini_key_value_store.Prelude.{
  ℕ, suc, ◌+◌, ◌*◌, ◌-◌, ◌/◌, ◌%◌, ◌^◌, ◌≤◌, ◌<◌, true, false, Bytes, [], ◌∷◌, ◌++◌, length, ◌≡◌,
  ◌≢◌, pos, some, returns, fails, and_then, arith, ◌==◌, refl, sym, ap, ◌∙◌, lt→ltb, le→ltb_false,
  if_neg, bytes_discrete, ℕ_discrete, not, length-append, if◌then◌else◌,
}
use mini_key_value_store.Item.{is_digit, is_decimal, all_digits}
use mini_key_value_store.Decimal.{parse_digits, parse_uint, format_uint, max_uint64}
use mini_key_value_store.Decimal.Roundtrip.{
  parse-format_uint, is_decimal-format_uint, format_uint-cons,
}
use mini_key_value_store.Config.Integer.{scan_uint, uint_of, with_sign, atoi}
use mini_key_value_store.Config.Float.{float}
use mini_key_value_store.Config.Duration.{
  leading_int, number_of, fraction_of, split_unit, find_unit, unit_of, component_value,
  number_after, component_of, with_value, starts_number, invalid_duration, component, add_component,
  components, signed_duration, unsigned_duration, parse_duration,
}

digit_value :
    (b n m : ℕ) (bs : Bytes)
    → parse_digits n (b ∷ bs) ≡ some m
    → (is_digit b ≡ true)
      × (n * 10 + (b - b'0') ≤ max_uint64)
      × (parse_digits (n * 10 + (b - b'0')) bs ≡ some m)
unfolding parse_digits
digit_value b n m bs e = ground arith

scan_uint-parse_digits :
    (n : ℕ) (bs : Bytes) (m : ℕ) → parse_digits n bs ≡ some m → scan_uint n bs ≡ returns m
unfolding scan_uint
scan_uint-parse_digits n [] m e = unfold parse_digits in cc
scan_uint-parse_digits n (b ∷ bs) m e =
    let (d, l, r) = digit_value b n m bs e in
    rw (d, lt→ltb (n * 10 + (b - b'0')) (2 ^ 64) (omega (arith, l)))
      (scan_uint-parse_digits (n * 10 + (b - b'0')) bs m r)

uint_of-parse_uint : (s : Bytes) (m : ℕ) → parse_uint s ≡ some m → uint_of s ≡ returns m
unfolding parse_uint
uint_of-parse_uint [] m e = absurd (cc)
uint_of-parse_uint (b ∷ bs) m e = scan_uint-parse_digits 0 (b ∷ bs) m e

digit-IsNoSign : (b : ℕ) → is_digit b ≡ true → (b == b'-' ≡ false) × (b == b'+' ≡ false)
digit-IsNoSign b h = ground arith

head_digit : (b : ℕ) (bs : Bytes) → is_decimal (b ∷ bs) ≡ true → is_digit b ≡ true
unfolding is_decimal all_digits
head_digit b bs h = ground arith

-- The first byte of a printed number is a digit.
first_digit : (n : ℕ) → (c : ℕ) × (cs : Bytes) × (format_uint n ≡ c ∷ cs) × (is_digit c ≡ true)
first_digit n =
    let (c, cs, e) = format_uint-cons n in
    let h : is_decimal (c ∷ cs) ≡ true = ap is_decimal (sym e) ∙ is_decimal-format_uint n in
    (c, cs, e, head_digit c cs h)

pub atoi-format_uint : (n : ℕ) → n < 2 ^ 63 → atoi (format_uint n) ≡ returns (pos n)
unfolding atoi
atoi-format_uint n h =
    let (c, cs, e, d) = first_digit n in
    let u =
      uint_of-parse_uint (c ∷ cs) n
        (ap parse_uint (sym e) ∙ parse-format_uint n (omega (arith, h))) in
    let (m, p) = digit-IsNoSign c d in
    rw (e, m, p, u) (unfold with_sign in rw (lt→ltb n (2 ^ 63) h))

parse_digits-ge : (n : ℕ) (bs : Bytes) (m : ℕ) → parse_digits n bs ≡ some m → n ≤ m
parse_digits-ge n [] m e = unfold parse_digits in ground arith
parse_digits-ge n (b ∷ bs) m e =
    let (d, l, r) = digit_value b n m bs e in
    omega (arith, parse_digits-ge (n * 10 + (b - b'0')) bs m r)

leading_int-parse_digits :
    (x : ℕ) (bs rest : Bytes) (m : ℕ)
    → m ≤ 2 ^ 63
    → parse_digits x bs ≡ some m
    → leading_int x (bs ++ rest) ≡ leading_int m rest
unfolding leading_int
leading_int-parse_digits x [] rest m h e = unfold parse_digits in ap (λ k. leading_int k rest) (cc)
leading_int-parse_digits x (b ∷ bs) rest m h e =
    let (d, l, r) = digit_value b x m bs e in
    let y = x * 10 + (b - b'0') in
    let g = parse_digits-ge y bs m r in
    rw
      (
        d,
        le→ltb_false (2 ^ 63 / 10) x (omega (arith, g, h)),
        le→ltb_false (2 ^ 63) y (omega (arith, g, h)),
      )
      (leading_int-parse_digits y bs rest m h r)

abbrev pub ns : Bytes
ns = b'n' ∷ b's' ∷ []

longer : (k : ℕ) → 2 < k → k == 2 ≡ false
longer k h = ground arith

number_read :
    (s : Bytes) (n : ℕ)
    → 2 < length s
    → leading_int 0 s ≡ some (n, ns)
    → number_of s ≡ some (record { v = n; f = 0; scale = float 1; rest = ns })
unfolding number_of
number_read s n l e =
    ap (number_after s) e
    ∙ ap (λ t. fraction_of (not t) n ns) (longer (length s) l)
    ∙ without_fraction n
  where
    without_fraction :
        (n : ℕ) → fraction_of true n ns ≡ some (record { v = n; f = 0; scale = float 1; rest = ns })
    without_fraction n = unfold fraction_of in refl

leading_int-print :
    (n : ℕ) (c : ℕ) (cs : Bytes)
    → n < 2 ^ 63
    → format_uint n ≡ c ∷ cs
    → leading_int 0 (c ∷ cs ++ ns) ≡ some (n, ns)
leading_int-print n c cs h e =
    leading_int-parse_digits 0 (c ∷ cs) ns n (omega (arith, h))
      (digits (ap parse_uint (sym e) ∙ parse-format_uint n (omega (arith, h))))
    ∙ no_digit
  where
    digits : parse_uint (c ∷ cs) ≡ some n → parse_digits 0 (c ∷ cs) ≡ some n
    digits p = unfold parse_uint in p

    no_digit : leading_int n ns ≡ some (n, ns)
    no_digit = unfold leading_int in refl

starts_digit : (c : ℕ) (cs : Bytes) → is_digit c ≡ true → starts_number (c ∷ cs) ≡ true
starts_digit c cs d = ground arith

nanoseconds : (n : ℕ) → n < 2 ^ 63 → component_value n 0 (float 1) 1 ≡ some n
unfolding component_value
nanoseconds n h = rw (le→ltb_false (2 ^ 63) n (omega (arith, h))) (ap some (omega arith))

unit_read :
    (n : ℕ)
    → n < 2 ^ 63
    → unit_of (record { v = n; f = 0; scale = float 1; rest = ns }) ≡ returns (n, [])
unfolding unit_of split_unit find_unit bytes_discrete ℕ_discrete
unit_read n h = ap (with_value []) (nanoseconds n h)

component-print :
    (n c : ℕ) (cs : Bytes)
    → n < 2 ^ 63
    → format_uint n ≡ c ∷ cs
    → is_digit c ≡ true
    → component (c ∷ cs ++ ns) ≡ returns (n, [])
unfolding component
component-print n c cs h e d =
    let s = c ∷ cs ++ ns in
    let l : 2 < length s = omega (arith, length-append cs ns) in
    ap (λ t. if t then component_of (number_of s) else fails invalid_duration)
      (starts_digit c (cs ++ ns) d)
    ∙ ap component_of (number_read s n l (leading_int-print n c cs h e))
    ∙ unit_read n h

add_first : (n : ℕ) → n < 2 ^ 63 → add_component 0 n ≡ returns n
unfolding add_component
add_first n h =
    let e : (0 + n) % 2 ^ 64 ≡ n = omega (arith, h) in
    rw (add_component, e, le→ltb_false (2 ^ 63) n (omega (arith, h))) refl

components-print :
    (fuel n c : ℕ) (cs : Bytes)
    → n < 2 ^ 63
    → format_uint n ≡ c ∷ cs
    → is_digit c ≡ true
    → components (suc fuel) 0 (c ∷ cs ++ ns) ≡ returns n
unfolding components
components-print fuel n c cs h e d =
    ap
      (λ o.
        and_then o
          (λ taken. and_then (add_component 0 taken.0) (λ sum. components fuel sum taken.1)))
      (component-print n c cs h e d)
    ∙ ap (λ o. and_then o (λ sum. components fuel sum [])) (add_first n h)

not_zero : (c : ℕ) (cs : Bytes) → c ∷ cs ++ ns ≢ b'0' ∷ []
not_zero c [] e = absurd (cc)
not_zero c (b ∷ cs) e = absurd (cc)

unsigned_duration-print :
    (n c : ℕ) (cs : Bytes)
    → n < 2 ^ 63
    → format_uint n ≡ c ∷ cs
    → is_digit c ≡ true
    → unsigned_duration false (c ∷ cs ++ ns) ≡ returns (pos n)
unfolding unsigned_duration
unsigned_duration-print n c cs h e d =
    if_neg (bytes_discrete (c ∷ cs ++ ns) (b'0' ∷ [])) (not_zero c cs) _ _
    ∙ ap (λ o. and_then o (signed_duration false))
        (components-print (length (cs ++ ns)) n c cs h e d)
    ∙ positive n h
  where
    positive : (n : ℕ) → n < 2 ^ 63 → signed_duration false n ≡ returns (pos n)
    positive n h =
        unfold signed_duration in rw (le→ltb_false (2 ^ 63 - 1) n (omega (arith, h))) refl

pub parse_duration-format_uint :
    (n : ℕ) → n < 2 ^ 63 → parse_duration (format_uint n ++ ns) ≡ returns (pos n)
unfolding parse_duration
parse_duration-format_uint n h =
    let (c, cs, e, d) = first_digit n in
    let (m, p) = digit-IsNoSign c d in rw (e, m, p) (unsigned_duration-print n c cs h e d)
