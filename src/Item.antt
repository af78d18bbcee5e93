-- ===== src/Item.antt =====
-- internal/store/store.go: the stored item without its list fields (those are in Lru), the errors
-- of the store, and the clock. A `time.Time` is the number of nanoseconds since the zero time.
use mini_key_value_store.Prelude.{
  ℕ, zero, suc, ◌+◌, ◌==◌, Bool, true, false, not, ◌&&◌, Bytes, ℤ, pos, negsuc, ltb, [], ◌∷◌, ◌||◌,
}

pub record StoredItem : Type 0 where
  pub key : Bytes
  pub value : Bytes
  pub expires_at : ℕ
  pub size : ℕ
  pub cas : ℕ

-- What `Get` returns.
pub record Item : Type 0 where
  pub value : Bytes
  pub cas : ℕ

pub data StoreError : Type 0 where
  not_found not_integer overflow value_too_large memory_limit_exceeded cas_mismatch : StoreError

-- `t.IsZero()`
abbrev pub is_zero : ℕ → Bool
is_zero t = t == 0

-- `expiresAt(now, ttl)`
unfoldable pub expires_at : ℕ → ℤ → ℕ
expires_at now (pos zero) = 0
expires_at now (pos (suc n)) = now + suc n
expires_at now (negsuc n) = 0

-- `i.expired(now)`: `now.Before(t)` is `now < t`.
unfoldable pub expired : StoredItem → ℕ → Bool
expired i now = not (is_zero i.expires_at) && not (ltb now i.expires_at)

-- `isDecimal(value)`
abbrev pub is_digit : ℕ → Bool
is_digit b = not (ltb b b'0' || ltb b'9' b)

unfoldable pub all_digits : Bytes → Bool
all_digits [] = true
all_digits (b ∷ bs) = is_digit b && all_digits bs

unfoldable pub is_decimal : Bytes → Bool
unfolding all_digits
is_decimal [] = false
is_decimal (b ∷ bs) = all_digits (b ∷ bs)

-- A result with an error, where the source returns a value and an `error`.
pub data Result (A : Type 0) : Type 0 where
  ok : A → Result A
  err : StoreError → Result A
