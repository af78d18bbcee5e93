-- ===== src/Config/Duration.antt =====
-- `time.ParseDuration`, as internal/config/config.go uses it. A duration is its nanoseconds, and the
-- sums keep the wrap-around of uint64.
use mini_key_value_store.Prelude.{
  ℕ, zero, suc, ◌+◌, ◌*◌, ◌-◌, ◌/◌, ◌%◌, ◌^◌, Bool, true, false, ◌||◌, not, Bytes, bytes_discrete,
  List, [], ◌∷◌, ◌==◌, ltb, if◌then◌else◌, ite, length, Option, none, some, ℤ, pos, Outcome,
  returns, fails, and_then,
}
use mini_key_value_store.Item.{is_digit}
use mini_key_value_store.Config.{second, minute}
use mini_key_value_store.Config.Integer.{negate}
use mini_key_value_store.Config.Float.{Float, float, multiply, divide, truncate}

pub data DurationError : Type 0 where
  invalid_duration missing_unit : DurationError
  unknown_unit : Bytes → DurationError

-- `leadingInt`: the digits after the value `x`, and what follows them; nothing past 2^63.
unfoldable pub leading_int : ℕ → Bytes → Option (ℕ × Bytes)
leading_int x [] = some (x, [])
leading_int x (b ∷ bs) =
    let y = x * 10 + (b - b'0') in
    let rest = leading_int y bs in
    if is_digit b
    then (if ltb (2 ^ 63 / 10) x then none else if ltb (2 ^ 63) y then none else rest)
    else some (x, b ∷ bs)

-- `leadingFraction`: digits past the precision are passed.
unfoldable pub skip_digits : Bytes → Bytes
skip_digits [] = []
skip_digits (b ∷ bs) = let rest = skip_digits bs in if is_digit b then rest else b ∷ bs

unfoldable pub leading_fraction : ℕ → Float → Bytes → ℕ × Float × Bytes
unfolding skip_digits multiply float
leading_fraction x scale [] = (x, scale, [])
leading_fraction x scale (b ∷ bs) =
    let y = x * 10 + (b - b'0') in
    let rest = leading_fraction y (multiply scale (float 10)) bs in
    if is_digit b
    then (if ltb ((2 ^ 63 - 1) / 10) x || ltb (2 ^ 63) y
        then (x, scale, skip_digits (b ∷ bs))
        else rest)
    else (x, scale, b ∷ bs)

-- The unit in front, up to a period or a digit, and what follows it.
unfoldable pub split_unit : Bytes → Bytes × Bytes
split_unit [] = ([], [])
split_unit (b ∷ bs) =
    let (unit, rest) = split_unit bs in
    if b == b'.' || is_digit b then ([], b ∷ bs) else (b ∷ unit, rest)

-- `unitMap`: "us" has two more spellings in UTF-8.
abbrev pub unit_map : List (Bytes × ℕ)
unit_map =
    (b'n' ∷ b's' ∷ [], 1)
    ∷ (b'u' ∷ b's' ∷ [], 1000)
    ∷ (194 ∷ 181 ∷ b's' ∷ [], 1000)
    ∷ (206 ∷ 188 ∷ b's' ∷ [], 1000)
    ∷ (b'm' ∷ b's' ∷ [], 1000 * 1000)
    ∷ (b's' ∷ [], second)
    ∷ (b'm' ∷ [], minute)
    ∷ (b'h' ∷ [], 60 * minute)
    ∷ []

unfoldable pub find_unit : Bytes → List (Bytes × ℕ) → Option ℕ
find_unit u [] = none
find_unit u ((name, value) ∷ units) = ite (bytes_discrete u name) (some value) (find_unit u units)

-- The nanoseconds of `f / scale` units.
unfoldable pub fraction_value : ℕ → ℕ → Float → ℕ
unfolding multiply divide float truncate
fraction_value unit f scale = truncate (multiply (float f) (divide (float unit) scale))

-- `v` units and a fraction of one, if they are within 2^63 nanoseconds.
unfoldable pub component_value : ℕ → ℕ → Float → ℕ → Option ℕ
unfolding fraction_value
component_value v f scale unit =
    let whole = v * unit in
    let sum = (whole + fraction_value unit f scale) % 2 ^ 64 in
    if ltb (2 ^ 63 / unit) v
    then none
    else if ltb 0 f
    then (if ltb (2 ^ 63) sum then none else some sum)
    else some whole

-- A number has its digits, its fraction, and what follows it.
pub record Number : Type 0 where
  pub v : ℕ
  pub f : ℕ
  pub scale : Float
  pub rest : Bytes

unfoldable pub fraction_of : Bool → ℕ → Bytes → Option Number
unfolding leading_fraction float
fraction_of pre v [] =
    if pre then some (record { v = v; f = 0; scale = float 1; rest = [] }) else none
fraction_of pre v (b ∷ bs) =
    let (f, scale, rest) = leading_fraction 0 (float 1) bs in
    let post = not (length bs == length rest) in
    if b == b'.'
    then (if pre || post then some (record { v = v; f = f; scale = scale; rest = rest }) else none)
    else if pre
    then some (record { v = v; f = 0; scale = float 1; rest = b ∷ bs })
    else none

abbrev pub number_after : Bytes → Option (ℕ × Bytes) → Option Number
number_after s none = none
number_after s (some (v, rest)) = fraction_of (not (length s == length rest)) v rest

unfoldable pub number_of : Bytes → Option Number
unfolding leading_int fraction_of
number_of s = number_after s (leading_int 0 s)

abbrev pub starts_number : Bytes → Bool
starts_number [] = false
starts_number (b ∷ bs) = b == b'.' || is_digit b

-- The number, its unit, and what follows them.
abbrev pub with_value : Bytes → Option ℕ → Outcome DurationError (ℕ × Bytes)
with_value rest none = fails invalid_duration
with_value rest (some nanos) = returns (nanos, rest)

abbrev pub value_of_unit : Number → Bytes → Bytes → Option ℕ → Outcome DurationError (ℕ × Bytes)
value_of_unit n u rest none = fails (unknown_unit u)
value_of_unit n u rest (some unit) = with_value rest (component_value n.v n.f n.scale unit)

abbrev pub with_unit : Number → Bytes → Bytes → Outcome DurationError (ℕ × Bytes)
with_unit n [] rest = fails missing_unit
with_unit n (b ∷ u) rest = value_of_unit n (b ∷ u) rest (find_unit (b ∷ u) unit_map)

unfoldable pub unit_of : Number → Outcome DurationError (ℕ × Bytes)
unfolding split_unit find_unit component_value
unit_of n = let (u, rest) = split_unit n.rest in with_unit n u rest

abbrev pub component_of : Option Number → Outcome DurationError (ℕ × Bytes)
component_of none = fails invalid_duration
component_of (some n) = unit_of n

unfoldable pub component : Bytes → Outcome DurationError (ℕ × Bytes)
unfolding number_of unit_of
component s = if starts_number s then component_of (number_of s) else fails invalid_duration

-- `d += v`
unfoldable pub add_component : ℕ → ℕ → Outcome DurationError ℕ
add_component d nanos =
    let sum = (d + nanos) % 2 ^ 64 in
    if ltb (2 ^ 63) sum then fails invalid_duration else returns sum

-- The loop, with the sum `d` so far; a component takes at least one byte, so the length is fuel
-- enough.
unfoldable pub components : ℕ → ℕ → Bytes → Outcome DurationError ℕ
unfolding component add_component
components fuel d [] = returns d
components zero d (b ∷ bs) = fails invalid_duration
components (suc fuel) d (b ∷ bs) =
    and_then (component (b ∷ bs))
      (λ taken. and_then (add_component d taken.0) (λ sum. components fuel sum taken.1))

-- The sum with its sign: without one it is below 2^63.
unfoldable pub signed_duration : Bool → ℕ → Outcome DurationError ℤ
signed_duration true d = returns (negate d)
signed_duration false d = if ltb (2 ^ 63 - 1) d then fails invalid_duration else returns (pos d)

unfoldable pub unsigned_duration : Bool → Bytes → Outcome DurationError ℤ
unfolding components signed_duration
unsigned_duration neg [] = fails invalid_duration
unsigned_duration neg (b ∷ bs) =
    ite (bytes_discrete (b ∷ bs) (b'0' ∷ [])) (returns (pos 0))
      (and_then (components (length (b ∷ bs)) 0 (b ∷ bs)) (signed_duration neg))

unfoldable pub parse_duration : Bytes → Outcome DurationError ℤ
unfolding unsigned_duration
parse_duration [] = fails invalid_duration
parse_duration (b ∷ bs) =
    if b == b'-'
    then unsigned_duration true bs
    else if b == b'+'
    then unsigned_duration false bs
    else unsigned_duration false (b ∷ bs)
