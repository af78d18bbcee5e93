-- ===== src/Config/Text.antt =====
-- `strings.TrimSpace`, `strings.HasPrefix` with "#", and `strings.Cut` at "=", as
-- internal/config/config.go uses them.
use mini_key_value_store.Prelude.{
  ℕ, zero, suc, Bool, false, Bytes, [], ◌∷◌, ◌==◌, if◌then◌else◌, Option, none, some,
}
use mini_key_value_store.Protocol.Fields.{space_width}
use mini_key_value_store.Config.{is_empty}

-- `skip` counts the bytes of a white space to pass.
unfoldable pub trim_left_from : ℕ → Bytes → Bytes
trim_left_from skip [] = []
trim_left_from (suc skip) (b ∷ bs) = trim_left_from skip bs
trim_left_from zero (b ∷ bs) = elim (space_width (b ∷ bs)) [
  | zero ↦ b ∷ bs
  | suc more ↦ trim_left_from more bs
]

unfoldable pub trim_left : Bytes → Bytes
unfolding trim_left_from
trim_left s = trim_left_from 0 s

-- The longest end that is all white space falls away.
unfoldable pub trim_right : Bytes → Bytes
unfolding trim_left
trim_right [] = []
trim_right (b ∷ bs) =
    let rest = trim_right bs in if is_empty (trim_left (b ∷ bs)) then [] else b ∷ rest

unfoldable pub trim_space : Bytes → Bytes
unfolding trim_left trim_right
trim_space s = trim_right (trim_left s)

abbrev pub has_hash : Bytes → Bool
has_hash [] = false
has_hash (b ∷ bs) = b == b'#'

abbrev put_before : ℕ → Option (Bytes × Bytes) → Option (Bytes × Bytes)
put_before b none = none
put_before b (some (key, value)) = some (b ∷ key, value)

-- What stands before the first "=" and after it, if there is one.
unfoldable pub cut : Bytes → Option (Bytes × Bytes)
cut [] = none
cut (b ∷ bs) = let rest = cut bs in if b == b'=' then some ([], bs) else put_before b rest
