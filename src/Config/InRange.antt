-- ===== src/Config/InRange.antt =====
-- internal/config/config.go: the ranges of the fields through the loop of `Load`.
use mini_key_value_store.Prelude.{
  ℕ, suc, Bool, true, false, Bytes, List, [], ◌∷◌, ◌≡◌, Option, none, some, ℤ, Outcome, returns,
  and_then-returns, wrap_error, wrap_error-returns, arith, subst, if◌then◌else◌,
}
use mini_key_value_store.Config.{Config, default}
use mini_key_value_store.Config.Text.{trim_space, has_hash, cut}
use mini_key_value_store.Config.Integer.{atoi}
use mini_key_value_store.Config.Duration.{parse_duration}
use mini_key_value_store.Config.Fields
use mini_key_value_store.Config.Fields.{
  Key, FieldError, bad_integer, bad_duration, key_names, find_key, parse_int, duration_field,
  set_key, set_field, set_found,
}
use mini_key_value_store.Config.Load.{load_entry, load_line, load_lines, bad_field}
use mini_key_value_store.Config.Ranges.{InInt64, atoi-InInt64, parse_duration-InInt64}

-- Every int and every duration is one of 64 bits.
pub record InRange (c : Config) : Type 0 where
  pub shards_range : InInt64 c.shards
  pub max_value_bytes_range : InInt64 c.max_value_bytes
  pub max_memory_bytes_range : InInt64 c.max_memory_bytes
  pub item_overhead_bytes_range : InInt64 c.item_overhead_bytes
  pub cleanup_interval_range : InInt64 c.cleanup_interval
  pub idle_timeout_range : InInt64 c.idle_timeout
  pub max_connections_range : InInt64 c.max_connections
  pub shutdown_timeout_range : InInt64 c.shutdown_timeout

pub default-InRange : InRange default
unfolding default
default-InRange = record {
  shards_range = omega arith;
  max_value_bytes_range = omega arith;
  max_memory_bytes_range = omega arith;
  item_overhead_bytes_range = omega arith;
  cleanup_interval_range = omega arith;
  idle_timeout_range = omega arith;
  max_connections_range = omega arith;
  shutdown_timeout_range = omega arith;
}

parse_int-InInt64 :
    (key : Key) (value : Bytes) (set : ℤ → Config) (c : Config)
    → parse_int key value set ≡ returns c
    → (z : ℤ) × InInt64 z × (set z ≡ c)
unfolding parse_int
parse_int-InInt64 key value set c e =
    let (z, r, t) = and_then-returns (wrap_error (bad_integer key) (atoi value)) _ c e in
    (z, atoi-InInt64 value z (wrap_error-returns (bad_integer key) (atoi value) z r), cc)

duration_field-InInt64 :
    (key : Key) (value : Bytes) (set : ℤ → Config) (c : Config)
    → duration_field key value set ≡ returns c
    → (z : ℤ) × InInt64 z × (set z ≡ c)
unfolding duration_field
duration_field-InInt64 key value set c e =
    let (z, r, t) = and_then-returns (wrap_error (bad_duration key) (parse_duration value)) _ c e in
    (
      z,
      parse_duration-InInt64 value z
          (wrap_error-returns (bad_duration key) (parse_duration value) z r),
      cc,
    )

returned : {E : Type 0} (a b : Config) → ◌≡◌ {A = Outcome E Config} (returns a) (returns b) → a ≡ b
returned a b e = cc

-- The same as a product, whose parts an assignment of a field replaces.
abbrev FieldRanges : Config → Type 0
FieldRanges c =
    InInt64 c.shards
    × InInt64 c.max_value_bytes
    × InInt64 c.max_memory_bytes
    × InInt64 c.item_overhead_bytes
    × InInt64 c.cleanup_interval
    × InInt64 c.idle_timeout
    × InInt64 c.max_connections
    × InInt64 c.shutdown_timeout

InRange-FieldRanges : (c : Config) → InRange c → FieldRanges c
InRange-FieldRanges c r = (
  r.shards_range, r.max_value_bytes_range, r.max_memory_bytes_range, r.item_overhead_bytes_range,
  r.cleanup_interval_range, r.idle_timeout_range, r.max_connections_range, r.shutdown_timeout_range,
)

FieldRanges-InRange : (c : Config) → FieldRanges c → InRange c
FieldRanges-InRange c a = record {
  shards_range = a.0;
  max_value_bytes_range = a.1;
  max_memory_bytes_range = a.2;
  item_overhead_bytes_range = a.3;
  cleanup_interval_range = a.4;
  idle_timeout_range = a.5;
  max_connections_range = a.6;
  shutdown_timeout_range = a.7;
}

set_key-FieldRanges :
    (cfg : Config) (key : Key) (value : Bytes) (c : Config)
    → FieldRanges cfg
    → set_key cfg key value ≡ returns c
    → FieldRanges c
unfolding set_key
set_key-FieldRanges cfg Fields.addr_key value c a e =
    subst FieldRanges (returned (record cfg { addr = value }) c e) a
set_key-FieldRanges cfg Fields.pprof_addr_key value c a e =
    subst FieldRanges (returned (record cfg { pprof_addr = value }) c e) a
set_key-FieldRanges cfg Fields.shards_key value c a e =
    let (z, h, s) =
      parse_int-InInt64 Fields.shards_key value (λ n. record cfg { shards = n }) c e in
    subst FieldRanges s (h, a.1, a.2, a.3, a.4, a.5, a.6, a.7)
set_key-FieldRanges cfg Fields.max_value_bytes_key value c a e =
    let (z, h, s) =
      parse_int-InInt64 Fields.max_value_bytes_key value (λ n. record cfg { max_value_bytes = n }) c
        e in
    subst FieldRanges s (a.0, h, a.2, a.3, a.4, a.5, a.6, a.7)
set_key-FieldRanges cfg Fields.max_memory_bytes_key value c a e =
    let (z, h, s) =
      parse_int-InInt64 Fields.max_memory_bytes_key value (λ n. record cfg { max_memory_bytes = n })
        c e in
    subst FieldRanges s (a.0, a.1, h, a.3, a.4, a.5, a.6, a.7)
set_key-FieldRanges cfg Fields.item_overhead_bytes_key value c a e =
    let (z, h, s) =
      parse_int-InInt64 Fields.item_overhead_bytes_key value
        (λ n. record cfg { item_overhead_bytes = n }) c e in
    subst FieldRanges s (a.0, a.1, a.2, h, a.4, a.5, a.6, a.7)
set_key-FieldRanges cfg Fields.cleanup_interval_key value c a e =
    let (z, h, s) =
      duration_field-InInt64 Fields.cleanup_interval_key value
        (λ n. record cfg { cleanup_interval = n }) c e in
    subst FieldRanges s (a.0, a.1, a.2, a.3, h, a.5, a.6, a.7)
set_key-FieldRanges cfg Fields.tls_cert_key value c a e =
    subst FieldRanges (returned (record cfg { tls_cert = value }) c e) a
set_key-FieldRanges cfg Fields.tls_key_key value c a e =
    subst FieldRanges (returned (record cfg { tls_key = value }) c e) a
set_key-FieldRanges cfg Fields.auth_token_key value c a e =
    subst FieldRanges (returned (record cfg { auth_token = value }) c e) a
set_key-FieldRanges cfg Fields.idle_timeout_key value c a e =
    let (z, h, s) =
      duration_field-InInt64 Fields.idle_timeout_key value (λ n. record cfg { idle_timeout = n }) c
        e in
    subst FieldRanges s (a.0, a.1, a.2, a.3, a.4, h, a.6, a.7)
set_key-FieldRanges cfg Fields.max_connections_key value c a e =
    let (z, h, s) =
      parse_int-InInt64 Fields.max_connections_key value (λ n. record cfg { max_connections = n }) c
        e in
    subst FieldRanges s (a.0, a.1, a.2, a.3, a.4, a.5, h, a.7)
set_key-FieldRanges cfg Fields.shutdown_timeout_key value c a e =
    let (z, h, s) =
      duration_field-InInt64 Fields.shutdown_timeout_key value
        (λ n. record cfg { shutdown_timeout = n }) c e in
    subst FieldRanges s (a.0, a.1, a.2, a.3, a.4, a.5, a.6, h)

set_key-InRange :
    (cfg : Config) (key : Key) (value : Bytes) (c : Config)
    → InRange cfg
    → set_key cfg key value ≡ returns c
    → InRange c
set_key-InRange cfg key value c r e =
    FieldRanges-InRange c (set_key-FieldRanges cfg key value c (InRange-FieldRanges cfg r) e)

set_found-InRange :
    (cfg : Config) (name value : Bytes) (o : Option Key) (c : Config)
    → InRange cfg
    → set_found cfg name value o ≡ returns c
    → InRange c
set_found-InRange cfg name value none c r e = absurd (cc)
set_found-InRange cfg name value (some key) c r e = set_key-InRange cfg key value c r e

load_entry-InRange :
    {E : Type 0} (cfg : Config) (n : ℕ) (o : Option (Bytes × Bytes)) (c : Config)
    → InRange cfg
    → load_entry {E = E} cfg n o ≡ returns c
    → InRange c
unfolding load_entry set_field
load_entry-InRange cfg n none c r e = absurd (cc)
load_entry-InRange cfg n (some (key, value)) c r e =
    set_found-InRange cfg (trim_space key) (trim_space value) (find_key (trim_space key) key_names)
      c r (wrap_error-returns (bad_field n) (set_field cfg (trim_space key) (trim_space value)) c e)

load_text-InRange :
    {E : Type 0} (cfg : Config) (n : ℕ) (b : ℕ) (bs : Bytes) (hash : Bool) (c : Config)
    → InRange cfg
    → (if hash then returns cfg else load_entry {E = E} cfg n (cut (b ∷ bs))) ≡ returns c
    → InRange c
load_text-InRange cfg n b bs true c r e = subst InRange (returned cfg c e) r
load_text-InRange cfg n b bs false c r e = load_entry-InRange cfg n (cut (b ∷ bs)) c r e

load_line-InRange :
    {E : Type 0} (cfg : Config) (n : ℕ) (line : Bytes) (c : Config)
    → InRange cfg
    → load_line {E = E} cfg n line ≡ returns c
    → InRange c
unfolding load_line
load_line-InRange cfg n [] c r e = subst InRange (returned cfg c e) r
load_line-InRange cfg n (b ∷ bs) c r e = load_text-InRange cfg n b bs (has_hash (b ∷ bs)) c r e

pub load_lines-InRange :
    {E : Type 0} (cfg : Config) (n : ℕ) (lines : List Bytes) (c : Config)
    → InRange cfg
    → load_lines {E = E} cfg n lines ≡ returns c
    → InRange c
unfolding load_lines
load_lines-InRange cfg n [] c r e = subst InRange (returned cfg c e) r
load_lines-InRange cfg n (line ∷ lines) c r e =
    let (next, t, q) = and_then-returns (load_line cfg (suc n) (trim_space line)) _ c e in
    load_lines-InRange next (suc n) lines c
      (load_line-InRange cfg (suc n) (trim_space line) next r t) q
