-- ===== src/Config.antt =====
-- internal/config/config.go: the configuration and its defaults. A duration is its nanoseconds.
pub mod Text
pub mod Scanner
pub mod Integer
pub mod Float
pub mod Duration
pub mod Fields
pub mod Load
pub mod Ranges
pub mod InRange
pub mod Valid
pub mod Numbers
pub mod Lines
pub mod Print
pub mod Entries
pub mod Shape
pub mod RoundTrip
pub mod Progress
pub mod BadLine
use mini_key_value_store.Prelude.{ℕ, ◌*◌, Bytes, [], ◌∷◌, Bool, true, false, not, ◌&&◌, ℤ, pos}

pub record Config : Type 0 where
  pub addr : Bytes
  pub pprof_addr : Bytes
  pub shards : ℤ
  pub max_value_bytes : ℤ
  pub max_memory_bytes : ℤ
  pub item_overhead_bytes : ℤ
  pub cleanup_interval : ℤ
  pub tls_cert : Bytes
  pub tls_key : Bytes
  pub auth_token : Bytes
  pub idle_timeout : ℤ
  pub max_connections : ℤ
  pub shutdown_timeout : ℤ

abbrev pub second : ℕ
second = 1000 * 1000 * 1000

abbrev pub minute : ℕ
minute = 60 * second

-- `Default`
unfoldable pub default : Config
default = record {
  addr =
      b'0' ∷ b'.' ∷ b'0' ∷ b'.' ∷ b'0' ∷ b'.' ∷ b'0' ∷ b':' ∷ b'1' ∷ b'1' ∷ b'2' ∷ b'1' ∷ b'1' ∷ [];
  pprof_addr = [];
  shards = pos 16;
  max_value_bytes = pos (1024 * 1024);
  max_memory_bytes = pos (64 * 1024 * 1024);
  item_overhead_bytes = pos 64;
  cleanup_interval = pos minute;
  tls_cert = [];
  tls_key = [];
  auth_token = [];
  idle_timeout = pos (5 * minute);
  max_connections = pos 1024;
  shutdown_timeout = pos (10 * second);
}

-- The test of a Go string against "".
abbrev pub is_empty : Bytes → Bool
is_empty [] = true
is_empty (b ∷ bs) = false

unfoldable pub tls_enabled : Config → Bool
tls_enabled c = not (is_empty c.tls_cert) && not (is_empty c.tls_key)
