-- ===== src/Config/Ranges.antt =====
-- internal/config/config.go: the range of the ints and durations that a configuration can hold.
use mini_key_value_store.Prelude.{
  ℕ, zero, suc, ◌+◌, ◌-◌, ◌%◌, ◌^◌, ◌≤◌, ◌<◌, Bool, true, false, ltb, leb, Bytes, [], ◌∷◌, ◌≡◌, ℤ,
  pos, negsuc, Outcome, returns, and_then, and_then-returns, arith, ◌==◌, bytes_discrete, length,
  ltb_false→le, ltb→lt, if◌then◌else◌, if_returns, if_not_returns, subst, sym, ◌∙◌, if_pos, if_neg,
}
use mini_key_value_store.Config.Integer.{
  IntegerError, negate, uint_of, with_sign, atoi, value_out_of_range,
}
use mini_key_value_store.Config.Duration.{
  components, component, add_component, signed_duration, unsigned_duration, parse_duration,
  invalid_duration,
}

-- The values of an int64.
abbrev pub InInt64 : ℤ → Type 0
InInt64 (pos n) = n < 2 ^ 63
InInt64 (negsuc n) = n < 2 ^ 63

negate-InInt64 : (n : ℕ) → n ≤ 2 ^ 63 → InInt64 (negate n)
negate-InInt64 zero h = omega arith
negate-InInt64 (suc n) h = omega (arith, h)

value_of :
    {E : Type 0} (a z : ℤ) → ◌≡◌ {A = Outcome E ℤ} (returns a) (returns z) → InInt64 a → InInt64 z
value_of a z e h = subst InInt64 (cc) h

leb→le : (a b : ℕ) → leb a b ≡ true → a ≤ b
leb→le a b h = ground arith

with_sign-InInt64 : (neg : Bool) (n : ℕ) (z : ℤ) → with_sign neg n ≡ returns z → InInt64 z
unfolding with_sign
with_sign-InInt64 true n z e =
    let (t, r) = if_returns (leb n (2 ^ 63)) (returns (negate n)) value_out_of_range z e in
    value_of (negate n) z r (negate-InInt64 n (leb→le n (2 ^ 63) t))
with_sign-InInt64 false n z e =
    let (t, r) = if_returns (ltb n (2 ^ 63)) (returns (pos n)) value_out_of_range z e in
    value_of (pos n) z r (ltb→lt n (2 ^ 63) t)

signed_int-InInt64 :
    (neg : Bool) (o : Outcome IntegerError ℕ) (z : ℤ)
    → and_then o (with_sign neg) ≡ returns z
    → InInt64 z
signed_int-InInt64 neg o z e =
    let (n, _, r) = and_then-returns o (with_sign neg) z e in with_sign-InInt64 neg n z r

-- A sign, or none, in front.
if_sign :
    (a b : Bool) (P : ℤ → Type 0) {E : Type 0} (x y w : Outcome E ℤ)
    → ((z : ℤ) → x ≡ returns z → P z)
    → ((z : ℤ) → y ≡ returns z → P z)
    → ((z : ℤ) → w ≡ returns z → P z)
    → (z : ℤ) → (if a then x else if b then y else w) ≡ returns z
    → P z
if_sign true b P x y w f g h z e = f z e
if_sign false true P x y w f g h z e = g z e
if_sign false false P x y w f g h z e = h z e

pub atoi-InInt64 : (s : Bytes) (z : ℤ) → atoi s ≡ returns z → InInt64 z
unfolding atoi
atoi-InInt64 [] z e = absurd (cc)
atoi-InInt64 (b ∷ bs) z e =
    if_sign (b == b'-') (b == b'+') InInt64 _ _ _ (signed_int-InInt64 true (uint_of bs))
      (signed_int-InInt64 false (uint_of bs)) (signed_int-InInt64 false (uint_of (b ∷ bs))) z e

add_component-le : (d nanos n : ℕ) → add_component d nanos ≡ returns n → n ≤ 2 ^ 63
unfolding add_component
add_component-le d nanos n e =
    let sum = (d + nanos) % 2 ^ 64 in
    let (t, r) = if_not_returns (ltb (2 ^ 63) sum) invalid_duration (returns sum) n e in
    subst (λ k. k ≤ 2 ^ 63) (cc) (ltb_false→le (2 ^ 63) sum t)

components-le :
    (fuel d : ℕ) (s : Bytes) (n : ℕ) → d ≤ 2 ^ 63 → components fuel d s ≡ returns n → n ≤ 2 ^ 63
unfolding components
components-le fuel d [] n h e = subst (λ k. k ≤ 2 ^ 63) (cc) h
components-le zero d (b ∷ bs) n h e = absurd (cc)
components-le (suc fuel) d (b ∷ bs) n h e =
    let (taken, _, r) = and_then-returns (component (b ∷ bs)) _ n e in
    let (sum, t, q) = and_then-returns (add_component d taken.0) _ n r in
    components-le fuel sum taken.1 n (add_component-le d taken.0 sum t) q

signed_duration-InInt64 :
    (neg : Bool) (d : ℕ) (z : ℤ) → d ≤ 2 ^ 63 → signed_duration neg d ≡ returns z → InInt64 z
unfolding signed_duration
signed_duration-InInt64 true d z h e = value_of (negate d) z e (negate-InInt64 d h)
signed_duration-InInt64 false d z h e =
    let (t, r) = if_not_returns (ltb (2 ^ 63 - 1) d) invalid_duration (returns (pos d)) z e in
    value_of (pos d) z r (omega (arith, ltb_false→le (2 ^ 63 - 1) d t))

unsigned_duration-InInt64 :
    (neg : Bool) (s : Bytes) (z : ℤ) → unsigned_duration neg s ≡ returns z → InInt64 z
unfolding unsigned_duration
unsigned_duration-InInt64 neg [] z e = absurd (cc)
unsigned_duration-InInt64 neg (b ∷ bs) z e = elim (bytes_discrete (b ∷ bs) (b'0' ∷ [])) [
  | yes p ↦
      value_of (pos 0) z (sym (if_pos (bytes_discrete (b ∷ bs) (b'0' ∷ [])) p _ _) ∙ e)
        (omega arith)
  | no n ↦
      let (d, t, r) =
        and_then-returns (components (length (b ∷ bs)) 0 (b ∷ bs)) (signed_duration neg) z
          (sym (if_neg (bytes_discrete (b ∷ bs) (b'0' ∷ [])) n _ _) ∙ e) in
      signed_duration-InInt64 neg d z (components-le (length (b ∷ bs)) 0 (b ∷ bs) d (omega arith) t)
        r
]

pub parse_duration-InInt64 : (s : Bytes) (z : ℤ) → parse_duration s ≡ returns z → InInt64 z
unfolding parse_duration
parse_duration-InInt64 [] z e = absurd (cc)
parse_duration-InInt64 (b ∷ bs) z e =
    if_sign (b == b'-') (b == b'+') InInt64 _ _ _ (unsigned_duration-InInt64 true bs)
      (unsigned_duration-InInt64 false bs) (unsigned_duration-InInt64 false (b ∷ bs)) z e
