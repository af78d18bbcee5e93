-- ===== src/Config/BadLine.antt =====
-- internal/config/config.go: a file with a line whose value or key is refused.
use mini_key_value_store.Prelude.{
  ℕ, ◌^◌, ◌<◌, Bytes, List, ◌∷◌, length, All, ◌≡◌, Option, none, returns,
}
use mini_key_value_store.Config.{Config}
use mini_key_value_store.Config.Load.{load}
use mini_key_value_store.Config.Lines.{unlines}
use mini_key_value_store.Config.Print.{line_text, IsValue}
use mini_key_value_store.Config.Entries.{IsKeyText}
use mini_key_value_store.Config.Shape.{IsShortLine}

module _ {E : Type 0} (e : Option E) (ls : List Bytes) (c : Config) (h : All IsShortLine ls)
    (loaded : load {E = E} (returns (record { content = unlines ls; read_error = none }))
      ≡ returns c)
    (b : ℕ) (bs value : Bytes) (k : IsKeyText b bs) (short : length bs < 2 ^ 14)
    (v : IsValue value) where
  abbrev line : Bytes
  line = line_text (b ∷ bs) value
