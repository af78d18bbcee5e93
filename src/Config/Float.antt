-- ===== src/Config/Float.antt =====
-- float64 as `time.ParseDuration` uses it for the fraction of a duration, for
-- internal/config/config.go: a value that is not negative is a fraction of natural numbers, and each
-- operation rounds the exact result to 53 bits, the nearest even one on a tie. The exponent has no
-- bounds here: what float64 loses below its least exponent, or sets to infinity in the divisor, is
-- far below one nanosecond and is cut off.
use mini_key_value_store.Prelude.{ℕ, zero, suc, ◌+◌, ◌*◌, ◌/◌, ◌%◌, ◌^◌, ltb, if◌then◌else◌}

pub record Float : Type 0 where
  pub num : ℕ
  pub den : ℕ

-- The number of binary digits of `n`; `fuel` bounds it.
unfoldable pub bits_from : ℕ → ℕ → ℕ
bits_from zero n = 0
bits_from (suc fuel) zero = 0
bits_from (suc fuel) (suc n) = suc (bits_from fuel (suc n / 2))

unfoldable pub bits : ℕ → ℕ
unfolding bits_from
bits n = bits_from n n

-- `n / d` to the nearest whole number, an even one on a tie.
unfoldable pub nearest_even : ℕ → ℕ → ℕ
nearest_even n d =
    let q = n / d in
    let r = n % d in if ltb (2 * r) d then q else if ltb d (2 * r) then q + 1 else q + q % 2

-- `a` and `b` are scaled by powers of 2 until the quotient has 53 bits.
unfoldable pub round : ℕ → ℕ → Float
unfolding bits nearest_even
round a b =
    let n = a * 2 ^ (53 + bits b) in
    let d = b * 2 ^ bits a in
    if ltb (n / d) (2 ^ 53)
    then (record { num = nearest_even n d * 2 ^ bits a; den = 2 ^ (53 + bits b) })
    else (record { num = nearest_even n (d * 2) * 2 ^ (1 + bits a); den = 2 ^ (53 + bits b) })

unfoldable pub float : ℕ → Float
unfolding round
float n = round n 1

unfoldable pub multiply : Float → Float → Float
unfolding round
multiply x y = round (x.num * y.num) (x.den * y.den)

unfoldable pub divide : Float → Float → Float
unfolding round
divide x y = round (x.num * y.den) (x.den * y.num)

unfoldable pub add : Float → Float → Float
unfolding round
add x y = round (x.num * y.den + y.num * x.den) (x.den * y.den)

-- `uint64(x)`
unfoldable pub truncate : Float → ℕ
truncate x = x.num / x.den
