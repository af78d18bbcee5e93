-- ===== src/Config/Progress.antt =====
-- internal/config/config.go: the loop of `time.ParseDuration` takes bytes in each turn.
use mathlib.Core.Path.{fun_ext}
use mini_key_value_store.Prelude.{
  ℕ, zero, suc, ◌+◌, ◌*◌, ◌-◌, ◌/◌, ◌^◌, ◌≤◌, ◌<◌, Bool, not, ◌||◌, ltb, Bytes, [], ◌∷◌, ◌≡◌,
  Option, none, some, Outcome, returns, fails, and_then, arith, refl, ap, ◌∙◌, length, ◌==◌,
  if_either,
}
use mini_key_value_store.Item.{is_digit}
use mini_key_value_store.Config.Float.{Float, float, multiply}
use mini_key_value_store.Config.Duration.{
  DurationError, Number, leading_int, skip_digits, leading_fraction, fraction_of, number_after,
  number_of, split_unit, unit_map, find_unit, component_value, value_of_unit, with_value, with_unit,
  unit_of, component_of, component, starts_number, add_component, components,
}

-- What is left has at most `n` bytes, or fewer.
abbrev Within : ℕ → Option (ℕ × Bytes) → Type 0
Within n none = Unit
Within n (some (v, rest)) = length rest ≤ n

abbrev NumberWithin : ℕ → Option Number → Type 0
NumberWithin n none = Unit
NumberWithin n (some number) = length number.rest ≤ n

abbrev Below : ℕ → Outcome DurationError (ℕ × Bytes) → Type 0
Below n (fails e) = Unit
Below n (returns (v, rest)) = length rest < n

Within-suc : (n : ℕ) (o : Option (ℕ × Bytes)) → Within n o → Within (suc n) o
Within-suc n none h = tt
Within-suc n (some (v, rest)) h = omega (arith, h)

leading_int-Within : (x : ℕ) (s : Bytes) → Within (length s) (leading_int x s)
unfolding leading_int
leading_int-Within x [] = omega arith
leading_int-Within x (b ∷ s) =
    let y = x * 10 + (b - b'0') in
    let P = Within (suc (length s)) in
    if_either P (is_digit b) _ _
      (if_either P (ltb (2 ^ 63 / 10) x) _ _ tt (
        if_either P (ltb (2 ^ 63) y) _ _ tt
          (Within-suc (length s) (leading_int y s) (leading_int-Within y s))))
      (omega arith)

skip_digits-le : (s : Bytes) → length (skip_digits s) ≤ length s
unfolding skip_digits
skip_digits-le [] = omega arith
skip_digits-le (b ∷ s) =
    if_either (λ (r : Bytes). length r ≤ suc (length s)) (is_digit b) _ _
      (omega (arith, skip_digits-le s)) (omega arith)

leading_fraction-le :
    (x : ℕ) (scale : Float) (s : Bytes) → length (leading_fraction x scale s).2 ≤ length s
unfolding leading_fraction
leading_fraction-le x scale [] = omega arith
leading_fraction-le x scale (b ∷ s) =
    let y = x * 10 + (b - b'0') in
    let P : ℕ × Float × Bytes → Type 0 = λ r. length r.2 ≤ suc (length s) in
    if_either P (is_digit b) _ _
      (if_either P (ltb ((2 ^ 63 - 1) / 10) x || ltb (2 ^ 63) y) _ _ (skip_digits-le (b ∷ s))
        (omega (arith, leading_fraction-le y (multiply scale (float 10)) s)))
      (omega arith)

fraction_of-Within :
    (pre : Bool) (v : ℕ) (s : Bytes) → NumberWithin (length s) (fraction_of pre v s)
unfolding fraction_of
fraction_of-Within pre v [] = if_either (NumberWithin 0) pre _ _ (omega arith) tt
fraction_of-Within pre v (b ∷ s) =
    let P = NumberWithin (suc (length s)) in
    let taken = leading_fraction 0 (float 1) s in
    if_either P (b == b'.') _ _
      (if_either P (pre || not (length s == length taken.2)) _ _
        (omega (arith, leading_fraction-le 0 (float 1) s)) tt)
      (if_either P pre _ _ (omega arith) tt)

NumberWithin-le : (m n : ℕ) (o : Option Number) → m ≤ n → NumberWithin m o → NumberWithin n o
NumberWithin-le m n none l h = tt
NumberWithin-le m n (some number) l h = omega (arith, l, h)

number_after-Within :
    (s : Bytes) (o : Option (ℕ × Bytes))
    → Within (length s) o
    → NumberWithin (length s) (number_after s o)
number_after-Within s none h = tt
number_after-Within s (some (v, rest)) h =
    let pre = not (length s == length rest) in
    NumberWithin-le (length rest) (length s) (fraction_of pre v rest) h
      (fraction_of-Within pre v rest)

split_unit-length : (s : Bytes) → length (split_unit s).0 + length (split_unit s).1 ≡ length s
unfolding split_unit
split_unit-length [] = omega arith
split_unit-length (b ∷ s) =
    if_either (λ (r : Bytes × Bytes). length r.0 + length r.1 ≡ suc (length s))
      (b == b'.' || is_digit b) _ _ (omega arith) (omega (arith, split_unit-length s))

with_value-Below :
    (n : ℕ) (rest : Bytes) (o : Option ℕ) → length rest < n → Below n (with_value rest o)
with_value-Below n rest none h = tt
with_value-Below n rest (some nanos) h = h

value_of_unit-Below :
    (k : ℕ) (n : Number) (u rest : Bytes) (o : Option ℕ)
    → length rest < k
    → Below k (value_of_unit n u rest o)
value_of_unit-Below k n u rest none h = tt
value_of_unit-Below k n u rest (some unit) h =
    with_value-Below k rest (component_value n.v n.f n.scale unit) h

with_unit-Below :
    (k : ℕ) (n : Number) (u rest : Bytes)
    → length u + length rest ≤ k
    → Below k (with_unit n u rest)
with_unit-Below k n [] rest h = tt
with_unit-Below k n (b ∷ u) rest h =
    value_of_unit-Below k n (b ∷ u) rest (find_unit (b ∷ u) unit_map) (omega (arith, h))

component_of-Below : (k : ℕ) (o : Option Number) → NumberWithin k o → Below k (component_of o)
component_of-Below k none h = tt
component_of-Below k (some n) h =
    unfold unit_of in
    let (u, rest) = split_unit n.rest in
    with_unit-Below k n (split_unit n.rest).0 (split_unit n.rest).1
      (omega (arith, split_unit-length n.rest, h))

component-Below : (s : Bytes) → Below (length s) (component s)
unfolding component number_of
component-Below s =
    if_either (Below (length s)) (starts_number s) _ _
      (component_of-Below (length s) (number_after s (leading_int 0 s))
        (number_after-Within s (leading_int 0 s) (leading_int-Within 0 s)))
      tt

same_turn :
    (m n d k : ℕ) (o : Outcome DurationError (ℕ × Bytes))
    → ((sum : ℕ) (rest : Bytes) → length rest < k → components m sum rest ≡ components n sum rest)
    → Below k o
    → and_then o (λ taken. and_then (add_component d taken.0) (λ sum. components m sum taken.1))
      ≡ and_then o (λ taken. and_then (add_component d taken.0) (λ sum. components n sum taken.1))
same_turn m n d k (fails e) same l = refl
same_turn m n d k (returns (nanos, rest)) same l =
    ap (and_then (add_component d nanos)) (fun_ext (λ sum. same sum rest l))

-- One more turn of fuel than the bytes that are left changes nothing.
components-suc :
    (fuel d : ℕ) (s : Bytes) → length s ≤ fuel → components (suc fuel) d s ≡ components fuel d s
unfolding components
components-suc fuel d [] h = refl
components-suc zero d (b ∷ s) h = absurd (omega (arith, h))
components-suc (suc fuel) d (b ∷ s) h =
    same_turn (suc fuel) fuel d (suc (length s)) (component (b ∷ s))
      (λ sum rest l. components-suc fuel sum rest (omega (arith, l, h))) (component-Below (b ∷ s))

-- The loop of `ParseDuration` needs no more turns than the text has bytes: more fuel than that
-- changes nothing.
pub components-fuel :
    (k d : ℕ) (s : Bytes) → components (k + length s) d s ≡ components (length s) d s
components-fuel zero d s = ap (λ n. components n d s) (omega arith)
components-fuel (suc k) d s =
    let more : suc k + length s ≡ suc (k + length s) = omega arith in
    ap (λ n. components n d s) more
    ∙ components-suc (k + length s) d s (omega arith)
    ∙ components-fuel k d s
