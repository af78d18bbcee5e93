-- ===== src/Table.antt =====
-- Go's `map[K]V`, with `m[k]`, `m[k] = v` and `delete(m, k)`: a key stands at most once.
pub mod Laws
use mini_key_value_store.Prelude.{Option, none, some, ite, List, [], ◌∷◌, map}

abbrev pub Table : Type 0 → Type 0 → Type 0
Table K V = List (K × V)

module _ {K V : Type 0} where
  abbrev pub keys : Table K V → List K
  keys [] = []
  keys ((j, v) ∷ m) = j ∷ keys m

module _ {K V : Type 0} (dec : Discrete K) where
  unfoldable pub lookup : K → Table K V → Option V
  lookup k [] = none
  lookup k ((j, v) ∷ m) = ite (dec k j) (some v) (lookup k m)

  unfoldable pub put : K → V → Table K V → Table K V
  put k v [] = (k, v) ∷ []
  put k v ((j, w) ∷ m) = ite (dec k j) ((k, v) ∷ m) ((j, w) ∷ put k v m)

  unfoldable pub delete : K → Table K V → Table K V
  delete k [] = []
  delete k ((j, w) ∷ m) = ite (dec k j) m ((j, w) ∷ delete k m)
