-- ===== src/Protocol/Name.antt =====
-- The names of the commands in internal/protocol/protocol.go.
use mini_key_value_store.Prelude.{[], ◌∷◌, Bytes}

abbrev pub ping : Bytes
ping = b'p' ∷ b'i' ∷ b'n' ∷ b'g' ∷ []

abbrev pub auth : Bytes
auth = b'a' ∷ b'u' ∷ b't' ∷ b'h' ∷ []

abbrev pub get : Bytes
get = b'g' ∷ b'e' ∷ b't' ∷ []

abbrev pub set : Bytes
set = b's' ∷ b'e' ∷ b't' ∷ []

abbrev pub delete : Bytes
delete = b'd' ∷ b'e' ∷ b'l' ∷ b'e' ∷ b't' ∷ b'e' ∷ []

abbrev pub incr : Bytes
incr = b'i' ∷ b'n' ∷ b'c' ∷ b'r' ∷ []

abbrev pub stats : Bytes
stats = b's' ∷ b't' ∷ b'a' ∷ b't' ∷ b's' ∷ []

abbrev pub mget : Bytes
mget = b'm' ∷ b'g' ∷ b'e' ∷ b't' ∷ []

abbrev pub gets : Bytes
gets = b'g' ∷ b'e' ∷ b't' ∷ b's' ∷ []

abbrev pub cas : Bytes
cas = b'c' ∷ b'a' ∷ b's' ∷ []
