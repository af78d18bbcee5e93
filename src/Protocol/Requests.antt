-- ===== src/Protocol/Requests.antt =====
-- The requests of a client, and how they are printed in the wire format of
-- internal/protocol/protocol.go.
use mini_key_value_store.Prelude.{
  ℕ, ℕ_discrete, bytes_discrete, Bool, true, leb, ◌&&◌, ◌+◌, ◌≤◌, List, [], ◌∷◌, ◌++◌, Bytes,
  length, All, ◌≡◌, refl, arith,
}
use mini_key_value_store.Decimal.{max_uint64, format_uint}
use mini_key_value_store.Protocol.{
  op_get, op_set, op_delete, op_incr, op_ping, op_auth, op_mget, op_gets, op_cas, op_stats, Command,
  no_command,
}
use mini_key_value_store.Protocol.Name
use mini_key_value_store.Protocol.Reader.{max_int}
use mini_key_value_store.Protocol.Parser.{op_of}
use mini_key_value_store.Protocol.Lines.{IsPrintable, IsToken, join, crlf}
use mini_key_value_store.Protocol.Values.{IsKey, format_uint-IsToken}

-- What a client can ask. `set` and `cas` carry a TTL in seconds, a value and, for `cas`, the version.
pub data Request : Type 0 where
  ping stats : Request
  auth get delete : Bytes → Request
  incr : Bytes → ℕ → Request
  mget gets : Bytes → List Bytes → Request
  set : Bytes → ℕ → Bytes → Request
  cas : Bytes → ℕ → ℕ → Bytes → Request

-- The command that the server is to run.
abbrev pub command_of : Request → Command
command_of ping = record no_command { op = op_ping }
command_of stats = record no_command { op = op_stats }
command_of (auth token) = record no_command { op = op_auth; token = token }
command_of (get key) = record no_command { op = op_get; key = key }
command_of (delete key) = record no_command { op = op_delete; key = key }
command_of (incr key n) = record no_command { op = op_incr; key = key; delta = n }
command_of (mget key keys) = record no_command { op = op_mget; keys = key ∷ keys }
command_of (gets key keys) = record no_command { op = op_gets; keys = key ∷ keys }
command_of (set key ttl value) = record no_command {
  op = op_set;
  key = key;
  value = value;
  ttl_seconds = ttl;
}
command_of (cas key ttl version value) = record no_command {
  op = op_cas;
  key = key;
  value = value;
  ttl_seconds = ttl;
  cas = version;
}

abbrev pub name_of : Request → Bytes
name_of ping = Name.ping
name_of stats = Name.stats
name_of (auth _) = Name.auth
name_of (get _) = Name.get
name_of (delete _) = Name.delete
name_of (incr _ _) = Name.incr
name_of (mget _ _) = Name.mget
name_of (gets _ _) = Name.gets
name_of (set _ _ _) = Name.set
name_of (cas _ _ _ _) = Name.cas

abbrev pub arguments_of : Request → List Bytes
arguments_of ping = []
arguments_of stats = []
arguments_of (auth token) = token ∷ []
arguments_of (get key) = key ∷ []
arguments_of (delete key) = key ∷ []
arguments_of (incr key n) = key ∷ format_uint n ∷ []
arguments_of (mget key keys) = key ∷ keys
arguments_of (gets key keys) = key ∷ keys
arguments_of (set key ttl value) = key ∷ format_uint ttl ∷ format_uint (length value) ∷ []
arguments_of (cas key ttl version value) =
    key ∷ format_uint ttl ∷ format_uint version ∷ format_uint (length value) ∷ []

-- What follows the line, in front of `rest`.
abbrev pub body : Request → Bytes → Bytes
body (set _ _ value) rest = value ++ crlf rest
body (cas _ _ _ value) rest = value ++ crlf rest
body _ rest = rest

abbrev pub print : Request → Bytes → Bytes
print r rest = join (name_of r) (arguments_of r) ++ crlf (body r rest)

-- The request keeps the limits of the protocol: keys, uint64 numbers, and a value whose block
-- the runtime allocates.
abbrev pub IsValue : ℕ → Bytes → Type 0
IsValue max_alloc value = (length value + 2 ≤ max_alloc) × (length value + 2 ≤ max_int)

abbrev pub IsRequest : ℕ → Request → Type 0
IsRequest m ping = Unit
IsRequest m stats = Unit
IsRequest m (auth token) = IsKey token
IsRequest m (get key) = IsKey key
IsRequest m (delete key) = IsKey key
IsRequest m (incr key n) = IsKey key × (n ≤ max_uint64)
IsRequest m (mget key keys) = IsKey key × All IsKey keys
IsRequest m (gets key keys) = IsKey key × All IsKey keys
IsRequest m (set key ttl value) = IsKey key × (ttl ≤ max_uint64) × IsValue m value
IsRequest m (cas key ttl version value) =
    IsKey key × (ttl ≤ max_uint64) × (version ≤ max_uint64) × IsValue m value

IsKey-IsToken : (keys : List Bytes) → All IsKey keys → All IsToken keys
IsKey-IsToken [] h = tt
IsKey-IsToken (key ∷ keys) h = (h.0.token, IsKey-IsToken keys h.1)

is_printable : Bytes → Bool
is_printable [] = true
is_printable (b ∷ t) = (leb 33 b && leb b 126) && is_printable t

is_printable-All : (t : Bytes) → is_printable t ≡ true → All IsPrintable t
unfolding is_printable
is_printable-All [] h = tt
is_printable-All (b ∷ t) h = (ground arith, is_printable-All t (ground arith))

pub name_of-IsToken : (r : Request) → IsToken (name_of r)
unfolding is_printable
name_of-IsToken ping = (omega arith, is_printable-All Name.ping refl)
name_of-IsToken stats = (omega arith, is_printable-All Name.stats refl)
name_of-IsToken (auth token) = (omega arith, is_printable-All Name.auth refl)
name_of-IsToken (get key) = (omega arith, is_printable-All Name.get refl)
name_of-IsToken (delete key) = (omega arith, is_printable-All Name.delete refl)
name_of-IsToken (incr key n) = (omega arith, is_printable-All Name.incr refl)
name_of-IsToken (mget key keys) = (omega arith, is_printable-All Name.mget refl)
name_of-IsToken (gets key keys) = (omega arith, is_printable-All Name.gets refl)
name_of-IsToken (set key ttl value) = (omega arith, is_printable-All Name.set refl)
name_of-IsToken (cas key ttl version value) = (omega arith, is_printable-All Name.cas refl)

pub arguments_of-IsToken : (m : ℕ) (r : Request) → IsRequest m r → All IsToken (arguments_of r)
arguments_of-IsToken m ping h = tt
arguments_of-IsToken m stats h = tt
arguments_of-IsToken m (auth token) h = (h.token, tt)
arguments_of-IsToken m (get key) h = (h.token, tt)
arguments_of-IsToken m (delete key) h = (h.token, tt)
arguments_of-IsToken m (incr key n) h = (h.0.token, (format_uint-IsToken n, tt))
arguments_of-IsToken m (mget key keys) h = IsKey-IsToken (key ∷ keys) h
arguments_of-IsToken m (gets key keys) h = IsKey-IsToken (key ∷ keys) h
arguments_of-IsToken m (set key ttl value) h =
    (h.0.token, (format_uint-IsToken ttl, (format_uint-IsToken (length value), tt)))
arguments_of-IsToken m (cas key ttl version value) h = (
  h.0.token,
  (
    format_uint-IsToken ttl,
    (format_uint-IsToken version, (format_uint-IsToken (length value), tt)),
  ),
)

pub op_of-name_of : (r : Request) → op_of (name_of r) ≡ (command_of r).op
unfolding op_of bytes_discrete ℕ_discrete
op_of-name_of ping = refl
op_of-name_of stats = refl
op_of-name_of (auth token) = refl
op_of-name_of (get key) = refl
op_of-name_of (delete key) = refl
op_of-name_of (incr key n) = refl
op_of-name_of (mget key keys) = refl
op_of-name_of (gets key keys) = refl
op_of-name_of (set key ttl value) = refl
op_of-name_of (cas key ttl version value) = refl
