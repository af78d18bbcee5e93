-- ===== src/Config/Print.antt =====
-- internal/config/config.go: a configuration file as an operator writes it, for a configuration.
use mini_key_value_store.Prelude.{Bytes, List, [], ◌∷◌, ◌++◌, map, length, ◌<◌, ◌^◌}
use mini_key_value_store.Decimal.{format_uint}
use mini_key_value_store.Store.Config.{magnitude}
use mini_key_value_store.Config.{Config}
use mini_key_value_store.Config.Fields
use mini_key_value_store.Config.Fields.{Key}
use mini_key_value_store.Config.Numbers.{ns}
use mini_key_value_store.Config.Lines.{unlines, IsLine, IsTrimmed}

abbrev pub key_text : Key → Bytes
key_text Fields.addr_key = b'a' ∷ b'd' ∷ b'd' ∷ b'r' ∷ []
key_text Fields.pprof_addr_key =
    b'p' ∷ b'p' ∷ b'r' ∷ b'o' ∷ b'f' ∷ b'-' ∷ b'a' ∷ b'd' ∷ b'd' ∷ b'r' ∷ []
key_text Fields.shards_key = b's' ∷ b'h' ∷ b'a' ∷ b'r' ∷ b'd' ∷ b's' ∷ []
key_text Fields.max_value_bytes_key =
    b'm' ∷ b'a' ∷ b'x' ∷ b'-' ∷ b'v' ∷ b'a' ∷ b'l' ∷ b'u' ∷ b'e' ∷ b'-' ∷ b'b' ∷ b'y' ∷ b't' ∷ b'e'
    ∷ b's' ∷ []
key_text Fields.max_memory_bytes_key =
    b'm' ∷ b'a' ∷ b'x' ∷ b'-' ∷ b'm' ∷ b'e' ∷ b'm' ∷ b'o' ∷ b'r' ∷ b'y' ∷ b'-' ∷ b'b' ∷ b'y' ∷ b't'
    ∷ b'e' ∷ b's' ∷ []
key_text Fields.item_overhead_bytes_key =
    b'i' ∷ b't' ∷ b'e' ∷ b'm' ∷ b'-' ∷ b'o' ∷ b'v' ∷ b'e' ∷ b'r' ∷ b'h' ∷ b'e' ∷ b'a' ∷ b'd' ∷ b'-'
    ∷ b'b' ∷ b'y' ∷ b't' ∷ b'e' ∷ b's' ∷ []
key_text Fields.cleanup_interval_key =
    b'c' ∷ b'l' ∷ b'e' ∷ b'a' ∷ b'n' ∷ b'u' ∷ b'p' ∷ b'-' ∷ b'i' ∷ b'n' ∷ b't' ∷ b'e' ∷ b'r' ∷ b'v'
    ∷ b'a' ∷ b'l' ∷ []
key_text Fields.tls_cert_key = b't' ∷ b'l' ∷ b's' ∷ b'-' ∷ b'c' ∷ b'e' ∷ b'r' ∷ b't' ∷ []
key_text Fields.tls_key_key = b't' ∷ b'l' ∷ b's' ∷ b'-' ∷ b'k' ∷ b'e' ∷ b'y' ∷ []
key_text Fields.auth_token_key =
    b'a' ∷ b'u' ∷ b't' ∷ b'h' ∷ b'-' ∷ b't' ∷ b'o' ∷ b'k' ∷ b'e' ∷ b'n' ∷ []
key_text Fields.idle_timeout_key =
    b'i' ∷ b'd' ∷ b'l' ∷ b'e' ∷ b'-' ∷ b't' ∷ b'i' ∷ b'm' ∷ b'e' ∷ b'o' ∷ b'u' ∷ b't' ∷ []
key_text Fields.max_connections_key =
    b'm' ∷ b'a' ∷ b'x' ∷ b'-' ∷ b'c' ∷ b'o' ∷ b'n' ∷ b'n' ∷ b'e' ∷ b'c' ∷ b't' ∷ b'i' ∷ b'o' ∷ b'n'
    ∷ b's' ∷ []
key_text Fields.shutdown_timeout_key =
    b's' ∷ b'h' ∷ b'u' ∷ b't' ∷ b'd' ∷ b'o' ∷ b'w' ∷ b'n' ∷ b'-' ∷ b't' ∷ b'i' ∷ b'm' ∷ b'e' ∷ b'o'
    ∷ b'u' ∷ b't' ∷ []

-- The value of the key: a duration in nanoseconds.
abbrev pub value_text : Config → Key → Bytes
value_text c Fields.addr_key = c.addr
value_text c Fields.pprof_addr_key = c.pprof_addr
value_text c Fields.shards_key = format_uint (magnitude c.shards)
value_text c Fields.max_value_bytes_key = format_uint (magnitude c.max_value_bytes)
value_text c Fields.max_memory_bytes_key = format_uint (magnitude c.max_memory_bytes)
value_text c Fields.item_overhead_bytes_key = format_uint (magnitude c.item_overhead_bytes)
value_text c Fields.cleanup_interval_key = format_uint (magnitude c.cleanup_interval) ++ ns
value_text c Fields.tls_cert_key = c.tls_cert
value_text c Fields.tls_key_key = c.tls_key
value_text c Fields.auth_token_key = c.auth_token
value_text c Fields.idle_timeout_key = format_uint (magnitude c.idle_timeout) ++ ns
value_text c Fields.max_connections_key = format_uint (magnitude c.max_connections)
value_text c Fields.shutdown_timeout_key = format_uint (magnitude c.shutdown_timeout) ++ ns

abbrev pub all_keys : List Key
all_keys =
    Fields.addr_key ∷ Fields.pprof_addr_key ∷ Fields.shards_key ∷ Fields.max_value_bytes_key
    ∷ Fields.max_memory_bytes_key ∷ Fields.item_overhead_bytes_key ∷ Fields.cleanup_interval_key
    ∷ Fields.tls_cert_key ∷ Fields.tls_key_key ∷ Fields.auth_token_key ∷ Fields.idle_timeout_key
    ∷ Fields.max_connections_key ∷ Fields.shutdown_timeout_key ∷ []

abbrev pub line_text : Bytes → Bytes → Bytes
line_text key value = key ++ b'=' ∷ value

abbrev pub print_line : Config → Key → Bytes
print_line c key = line_text (key_text key) (value_text c key)

abbrev pub print : Config → Bytes
print c = unlines (map (print_line c) all_keys)

-- A value of a line: without white space at its ends, on one line, and not too long.
pub record IsValue (s : Bytes) : Type 0 where
  pub trimmed : IsTrimmed s
  pub line : IsLine s
  pub short : length s < 2 ^ 15

-- The strings of the configuration.
pub record IsText (c : Config) : Type 0 where
  pub addr_text : IsValue c.addr
  pub pprof_addr_text : IsValue c.pprof_addr
  pub tls_cert_text : IsValue c.tls_cert
  pub tls_key_text : IsValue c.tls_key
  pub auth_token_text : IsValue c.auth_token
