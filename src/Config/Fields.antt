-- ===== src/Config/Fields.antt =====
-- internal/config/config.go: `setField` and `parseInt`.
use mini_key_value_store.Prelude.{
  Bytes, bytes_discrete, List, [], ◌∷◌, ite, Option, none, some, ℤ, Outcome, returns, fails,
  and_then, wrap_error,
}
use mini_key_value_store.Config.{Config}
use mini_key_value_store.Config.Integer.{IntegerError, atoi}
use mini_key_value_store.Config.Duration.{DurationError, parse_duration}

-- The keys of the file.
pub data Key : Type 0 where
  addr_key pprof_addr_key shards_key max_value_bytes_key max_memory_bytes_key
        item_overhead_bytes_key cleanup_interval_key tls_cert_key tls_key_key auth_token_key
        idle_timeout_key max_connections_key shutdown_timeout_key :
      Key

-- The errors of `setField`: the key that is wrapped around the error of its value, or that is unknown.
pub data FieldError : Type 0 where
  bad_integer : Key → IntegerError → FieldError
  bad_duration : Key → DurationError → FieldError
  unknown_key : Bytes → FieldError

-- The cases of the `switch`.
abbrev pub key_names : List (Bytes × Key)
key_names =
    (b'a' ∷ b'd' ∷ b'd' ∷ b'r' ∷ [], addr_key)
    ∷ (b'p' ∷ b'p' ∷ b'r' ∷ b'o' ∷ b'f' ∷ b'-' ∷ b'a' ∷ b'd' ∷ b'd' ∷ b'r' ∷ [], pprof_addr_key)
    ∷ (b's' ∷ b'h' ∷ b'a' ∷ b'r' ∷ b'd' ∷ b's' ∷ [], shards_key)
    ∷ (
      b'm' ∷ b'a' ∷ b'x' ∷ b'-' ∷ b'v' ∷ b'a' ∷ b'l' ∷ b'u' ∷ b'e' ∷ b'-' ∷ b'b' ∷ b'y' ∷ b't'
          ∷ b'e' ∷ b's' ∷ [],
      max_value_bytes_key,
    )
    ∷ (
      b'm' ∷ b'a' ∷ b'x' ∷ b'-' ∷ b'm' ∷ b'e' ∷ b'm' ∷ b'o' ∷ b'r' ∷ b'y' ∷ b'-' ∷ b'b' ∷ b'y'
          ∷ b't' ∷ b'e' ∷ b's' ∷ [],
      max_memory_bytes_key,
    )
    ∷ (
      b'i' ∷ b't' ∷ b'e' ∷ b'm' ∷ b'-' ∷ b'o' ∷ b'v' ∷ b'e' ∷ b'r' ∷ b'h' ∷ b'e' ∷ b'a' ∷ b'd'
          ∷ b'-' ∷ b'b' ∷ b'y' ∷ b't' ∷ b'e' ∷ b's' ∷ [],
      item_overhead_bytes_key,
    )
    ∷ (
      b'c' ∷ b'l' ∷ b'e' ∷ b'a' ∷ b'n' ∷ b'u' ∷ b'p' ∷ b'-' ∷ b'i' ∷ b'n' ∷ b't' ∷ b'e' ∷ b'r'
          ∷ b'v' ∷ b'a' ∷ b'l' ∷ [],
      cleanup_interval_key,
    )
    ∷ (b't' ∷ b'l' ∷ b's' ∷ b'-' ∷ b'c' ∷ b'e' ∷ b'r' ∷ b't' ∷ [], tls_cert_key)
    ∷ (b't' ∷ b'l' ∷ b's' ∷ b'-' ∷ b'k' ∷ b'e' ∷ b'y' ∷ [], tls_key_key)
    ∷ (b'a' ∷ b'u' ∷ b't' ∷ b'h' ∷ b'-' ∷ b't' ∷ b'o' ∷ b'k' ∷ b'e' ∷ b'n' ∷ [], auth_token_key)
    ∷ (
      b'i' ∷ b'd' ∷ b'l' ∷ b'e' ∷ b'-' ∷ b't' ∷ b'i' ∷ b'm' ∷ b'e' ∷ b'o' ∷ b'u' ∷ b't' ∷ [],
      idle_timeout_key,
    )
    ∷ (
      b'm' ∷ b'a' ∷ b'x' ∷ b'-' ∷ b'c' ∷ b'o' ∷ b'n' ∷ b'n' ∷ b'e' ∷ b'c' ∷ b't' ∷ b'i' ∷ b'o'
          ∷ b'n' ∷ b's' ∷ [],
      max_connections_key,
    )
    ∷ (
      b's' ∷ b'h' ∷ b'u' ∷ b't' ∷ b'd' ∷ b'o' ∷ b'w' ∷ b'n' ∷ b'-' ∷ b't' ∷ b'i' ∷ b'm' ∷ b'e'
          ∷ b'o' ∷ b'u' ∷ b't' ∷ [],
      shutdown_timeout_key,
    )
    ∷ []

unfoldable pub find_key : Bytes → List (Bytes × Key) → Option Key
find_key s [] = none
find_key s ((name, key) ∷ rest) = ite (bytes_discrete s name) (some key) (find_key s rest)

-- `parseInt`: the configuration with the int that the value gives.
unfoldable pub parse_int : Key → Bytes → (ℤ → Config) → Outcome FieldError Config
unfolding atoi
parse_int key value set =
    and_then (wrap_error (bad_integer key) (atoi value)) (λ n. returns (set n))

unfoldable pub duration_field : Key → Bytes → (ℤ → Config) → Outcome FieldError Config
unfolding parse_duration
duration_field key value set =
    and_then (wrap_error (bad_duration key) (parse_duration value)) (λ d. returns (set d))

unfoldable pub set_key : Config → Key → Bytes → Outcome FieldError Config
unfolding parse_int duration_field
set_key cfg addr_key value = returns (record cfg { addr = value })
set_key cfg pprof_addr_key value = returns (record cfg { pprof_addr = value })
set_key cfg shards_key value = parse_int shards_key value (λ n. record cfg { shards = n })
set_key cfg max_value_bytes_key value =
    parse_int max_value_bytes_key value (λ n. record cfg { max_value_bytes = n })
set_key cfg max_memory_bytes_key value =
    parse_int max_memory_bytes_key value (λ n. record cfg { max_memory_bytes = n })
set_key cfg item_overhead_bytes_key value =
    parse_int item_overhead_bytes_key value (λ n. record cfg { item_overhead_bytes = n })
set_key cfg cleanup_interval_key value =
    duration_field cleanup_interval_key value (λ n. record cfg { cleanup_interval = n })
set_key cfg tls_cert_key value = returns (record cfg { tls_cert = value })
set_key cfg tls_key_key value = returns (record cfg { tls_key = value })
set_key cfg auth_token_key value = returns (record cfg { auth_token = value })
set_key cfg idle_timeout_key value =
    duration_field idle_timeout_key value (λ n. record cfg { idle_timeout = n })
set_key cfg max_connections_key value =
    parse_int max_connections_key value (λ n. record cfg { max_connections = n })
set_key cfg shutdown_timeout_key value =
    duration_field shutdown_timeout_key value (λ n. record cfg { shutdown_timeout = n })

abbrev pub set_found : Config → Bytes → Bytes → Option Key → Outcome FieldError Config
set_found cfg name value none = fails (unknown_key name)
set_found cfg name value (some key) = set_key cfg key value

unfoldable pub set_field : Config → Bytes → Bytes → Outcome FieldError Config
unfolding find_key set_key
set_field cfg name value = set_found cfg name value (find_key name key_names)
