-- ===== src/Protocol/Arguments.antt =====
-- internal/protocol/protocol.go: the checks of the arguments of a command.
use mini_key_value_store.Prelude.{
  ℕ, ◌≤◌, true, List, [], ◌∷◌, Bytes, length, ◌≡◌, arith, Bool-cases, Option-cases, inl, inr,
}
use mini_key_value_store.Decimal.{max_uint64, parse_uint}
use mini_key_value_store.Decimal.Roundtrip.{parse_uint-le}
use mini_key_value_store.Item.{is_decimal}
use mini_key_value_store.Protocol.{
  Read, done, eof, protocol_error, panics, then_read, Number, ttl_number, version_number,
}
use mini_key_value_store.Protocol.Tokens.{
  valid_key, all_valid, keys_from_fields, parse_uint_token, parse_byte_count,
}
use mini_key_value_store.Protocol.Parser.{set_arguments, cas_arguments}

-- Every value that a read may return has the property.
abbrev pub Returns : {A : Type 0} → (A → Type 0) → Read A → Type 0
Returns P (done a) = P a
Returns P eof = Unit
Returns P (protocol_error m) = Unit
Returns P panics = Unit

pub then_read-Returns :
    {A B : Type 0} (P : A → Type 0) (Q : B → Type 0) (r : Read A) (f : A → Read B)
    → Returns P r
    → ((a : A) → P a → Returns Q (f a))
    → Returns Q (then_read r f)
then_read-Returns P Q (done a) f p q = q a p
then_read-Returns P Q eof f p q = tt
then_read-Returns P Q (protocol_error m) f p q = tt
then_read-Returns P Q panics f p q = tt

pub parse_uint_token-Returns :
    (token : Bytes) (name : Number) → Returns (λ n. n ≤ max_uint64) (parse_uint_token token name)
unfolding parse_uint_token
parse_uint_token-Returns token name = elim (Bool-cases (is_decimal token)) [
  | inr e ↦ rw (parse_uint_token, e) tt
  | inl e ↦ elim (Option-cases (parse_uint token)) [
    | inl p ↦ rw (parse_uint_token, e, p) tt
    | inr (n, p) ↦ rw (parse_uint_token, e, p) (parse_uint-le token n p)
  ]
]

pub any-Returns : {A : Type 0} (r : Read A) → Returns (λ _. Unit {0}) r
any-Returns (done a) = tt
any-Returns eof = tt
any-Returns (protocol_error m) = tt
any-Returns panics = tt

unfoldable pub IsSetArguments : Bytes × ℕ × ℕ → Type 0
IsSetArguments (key, t, size) = (valid_key key ≡ true) × (t ≤ max_uint64)

pub set_arguments-Returns :
    (arguments : List Bytes) → Returns IsSetArguments (set_arguments arguments)
unfolding set_arguments IsSetArguments
set_arguments-Returns [] = tt
set_arguments-Returns (key ∷ []) = tt
set_arguments-Returns (key ∷ size ∷ []) = elim (Bool-cases (valid_key key)) [
  | inr e ↦ rw (set_arguments, e) tt
  | inl e ↦
      rw (set_arguments, e)
        (then_read-Returns (λ _. Unit {0}) IsSetArguments (parse_byte_count size) _ (any-Returns _)
          (λ n _. (e, omega arith)))
]
set_arguments-Returns (key ∷ t ∷ size ∷ []) = elim (Bool-cases (valid_key key)) [
  | inr e ↦ rw (set_arguments, e) tt
  | inl e ↦
      rw (set_arguments, e)
        (then_read-Returns (λ n. n ≤ max_uint64) IsSetArguments (parse_uint_token t ttl_number) _
          (parse_uint_token-Returns t ttl_number)
          (λ n le.
            then_read-Returns (λ _. Unit {0}) IsSetArguments (parse_byte_count size) _
              (any-Returns _) (λ _ _. (e, le))))
]
set_arguments-Returns (key ∷ t ∷ size ∷ more ∷ rest) = tt

unfoldable pub IsCasArguments : Bytes × ℕ × ℕ × ℕ → Type 0
IsCasArguments (key, t, v, size) = (valid_key key ≡ true) × (t ≤ max_uint64) × (v ≤ max_uint64)

then_read-Returns_cas :
    (key version size : Bytes) (t : ℕ)
    → valid_key key ≡ true
    → t ≤ max_uint64
    → Returns IsCasArguments (
        then_read
          (parse_uint_token version version_number)
          (λ v. then_read (parse_byte_count size) (λ n. done (key, t, v, n))))
unfolding IsCasArguments
then_read-Returns_cas key version size t e le =
    then_read-Returns (λ n. n ≤ max_uint64) IsCasArguments (parse_uint_token version version_number)
      _ (parse_uint_token-Returns version version_number)
      (λ v lv.
        then_read-Returns (λ _. Unit {0}) IsCasArguments (parse_byte_count size) _ (any-Returns _)
          (λ _ _. (e, le, lv)))

pub cas_arguments-Returns :
    (arguments : List Bytes) → Returns IsCasArguments (cas_arguments arguments)
unfolding cas_arguments
cas_arguments-Returns [] = tt
cas_arguments-Returns (key ∷ []) = tt
cas_arguments-Returns (key ∷ size ∷ []) = tt
cas_arguments-Returns (key ∷ version ∷ size ∷ []) = elim (Bool-cases (valid_key key)) [
  | inr e ↦ rw (cas_arguments, e) tt
  | inl e ↦ rw (cas_arguments, e) (then_read-Returns_cas key version size 0 e (omega arith))
]
cas_arguments-Returns (key ∷ t ∷ version ∷ size ∷ []) = elim (Bool-cases (valid_key key)) [
  | inr e ↦ rw (cas_arguments, e) tt
  | inl e ↦
      rw (cas_arguments, e)
        (then_read-Returns (λ n. n ≤ max_uint64) IsCasArguments (parse_uint_token t ttl_number) _
          (parse_uint_token-Returns t ttl_number)
          (λ n le. then_read-Returns_cas key version size n e le))
]
cas_arguments-Returns (key ∷ t ∷ version ∷ size ∷ more ∷ rest) = tt

pub keys_from_fields-Returns :
    (keys : List Bytes)
    → Returns (λ ks. (all_valid ks ≡ true) × (1 ≤ length ks)) (keys_from_fields keys)
unfolding keys_from_fields
keys_from_fields-Returns [] = tt
keys_from_fields-Returns (key ∷ keys) = elim (Bool-cases (all_valid (key ∷ keys))) [
  | inr e ↦ rw (keys_from_fields, e) tt
  | inl e ↦ rw (keys_from_fields, e) (e, omega arith)
]
