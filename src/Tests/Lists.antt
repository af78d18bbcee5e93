-- ===== src/Tests/Lists.antt =====
-- Examples of the LRU list over number addresses, and of decimal numbers.
use mini_key_value_store.Prelude.{ℕ, [], ◌∷◌, ◌-◌, ◌^◌, ℕ_discrete, some, ◌≡◌, refl, arith, erase}
use mini_key_value_store.Lru
use mini_key_value_store.Lru.{LruList, push_front, remove, move_to_front}
use mini_key_value_store.Lru.Chain.{IsChain, push_front-IsChain}
use mini_key_value_store.Lru.Moves.{move_to_front-IsChain}
use mini_key_value_store.Decimal.{max_uint64, parse_uint, format_uint, parse_digits, format_digits}

empty-IsChain : IsChain (Lru.empty {K = ℕ}) []
empty-IsChain = record { head = refl; tail = refl; seg = tt; distinct = tt }

abbrev one : LruList ℕ
one = push_front ℕ_discrete Lru.empty 1

abbrev two : LruList ℕ
two = push_front ℕ_discrete one 2

one-IsChain : IsChain one (1 ∷ [])
one-IsChain = push_front-IsChain ℕ_discrete Lru.empty 1 [] empty-IsChain tt

two-IsChain : IsChain two (2 ∷ 1 ∷ [])
two-IsChain = push_front-IsChain ℕ_discrete one 2 (1 ∷ []) one-IsChain ((λ e. omega (arith, e)), tt)

move_to_front-IsChain_example :
    IsChain (move_to_front ℕ_discrete two 1) (1 ∷ erase ℕ_discrete 1 (2 ∷ 1 ∷ []))
move_to_front-IsChain_example =
    move_to_front-IsChain ℕ_discrete two 1 (2 ∷ 1 ∷ []) two-IsChain (λ f. f.1.0 refl)

leading_zeros : parse_uint (b'0' ∷ b'0' ∷ b'7' ∷ []) ≡ some 7
unfolding parse_uint parse_digits
leading_zeros = refl

too_large : parse_uint (format_uint (2 ^ 64 - 1)) ≡ some max_uint64
unfolding parse_uint format_uint parse_digits format_digits
too_large = refl
