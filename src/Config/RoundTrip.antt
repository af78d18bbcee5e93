-- ===== src/Config/RoundTrip.antt =====
-- internal/config/config.go: loading a configuration that was printed.
use mini_key_value_store.Prelude.{
  ℕ, suc, ◌^◌, ◌<◌, List, [], ◌∷◌, ◌++◌, map, All, ◌≡◌, none, some, ℤ, returns, and_then,
  wrap_error, refl, sym, ap, ◌∙◌, subst, bytes_discrete, ℕ_discrete,
}
use mini_key_value_store.Decimal.{format_uint}
use mini_key_value_store.Store.Config.{magnitude}
use mini_key_value_store.Config.{Config, default}
use mini_key_value_store.Config.Text.{trim_space}
use mini_key_value_store.Config.Scanner.{drop_cr}
use mini_key_value_store.Config.Fields
use mini_key_value_store.Config.Fields.{
  Key, FieldError, bad_integer, bad_duration, key_names, find_key, parse_int, duration_field,
  set_key, set_field, set_found,
}
use mini_key_value_store.Config.Load.{
  load_line, load_lines, load_file, load, bad_field, check_scan, check_config,
}
use mini_key_value_store.Config.Ranges.{InInt64}
use mini_key_value_store.Config.InRange.{InRange}
use mini_key_value_store.Config.Valid.{IsNatural, IsValid, IsValid-validate}
use mini_key_value_store.Config.Numbers.{atoi-format_uint, parse_duration-format_uint, ns}
use mini_key_value_store.Config.Print.{
  key_text, value_text, all_keys, line_text, print_line, print, IsText,
}
use mini_key_value_store.Config.Entries.{load_line-line_text}
use mini_key_value_store.Config.Shape.{
  key_text-IsKeyText, value_text-IsValue, line_text-IsShortLine, IsShortLine, scan-unlines,
}

-- The configuration with the field of the key taken from `c`.
abbrev put : Config → Key → Config → Config
put c Fields.addr_key cfg = record cfg { addr = c.addr }
put c Fields.pprof_addr_key cfg = record cfg { pprof_addr = c.pprof_addr }
put c Fields.shards_key cfg = record cfg { shards = c.shards }
put c Fields.max_value_bytes_key cfg = record cfg { max_value_bytes = c.max_value_bytes }
put c Fields.max_memory_bytes_key cfg = record cfg { max_memory_bytes = c.max_memory_bytes }
put c Fields.item_overhead_bytes_key cfg = record cfg {
  item_overhead_bytes = c.item_overhead_bytes;
}
put c Fields.cleanup_interval_key cfg = record cfg { cleanup_interval = c.cleanup_interval }
put c Fields.tls_cert_key cfg = record cfg { tls_cert = c.tls_cert }
put c Fields.tls_key_key cfg = record cfg { tls_key = c.tls_key }
put c Fields.auth_token_key cfg = record cfg { auth_token = c.auth_token }
put c Fields.idle_timeout_key cfg = record cfg { idle_timeout = c.idle_timeout }
put c Fields.max_connections_key cfg = record cfg { max_connections = c.max_connections }
put c Fields.shutdown_timeout_key cfg = record cfg { shutdown_timeout = c.shutdown_timeout }

abbrev put_all : Config → List Key → Config → Config
put_all c [] cfg = cfg
put_all c (key ∷ keys) cfg = put_all c keys (put c key cfg)

magnitude-lt : (z : ℤ) → IsNatural z → InInt64 z → magnitude z < 2 ^ 63
magnitude-lt z n r = subst InInt64 n r

parse_int-print :
    (key : Key) (z : ℤ) (set : ℤ → Config)
    → IsNatural z
    → InInt64 z
    → parse_int key (format_uint (magnitude z)) set ≡ returns (set z)
unfolding parse_int
parse_int-print key z set n r =
    ap (λ o. and_then (wrap_error (bad_integer key) o) (λ k. returns (set k)))
      (atoi-format_uint (magnitude z) (magnitude-lt z n r) ∙ ap returns (sym n))

duration_field-print :
    (key : Key) (z : ℤ) (set : ℤ → Config)
    → IsNatural z
    → InInt64 z
    → duration_field key (format_uint (magnitude z) ++ ns) set ≡ returns (set z)
unfolding duration_field
duration_field-print key z set n r =
    ap (λ o. and_then (wrap_error (bad_duration key) o) (λ k. returns (set k)))
      (parse_duration-format_uint (magnitude z) (magnitude-lt z n r) ∙ ap returns (sym n))

find_key-key_text : (key : Key) → find_key (key_text key) key_names ≡ some key
unfolding find_key bytes_discrete ℕ_discrete
find_key-key_text Fields.addr_key = refl
find_key-key_text Fields.pprof_addr_key = refl
find_key-key_text Fields.shards_key = refl
find_key-key_text Fields.max_value_bytes_key = refl
find_key-key_text Fields.max_memory_bytes_key = refl
find_key-key_text Fields.item_overhead_bytes_key = refl
find_key-key_text Fields.cleanup_interval_key = refl
find_key-key_text Fields.tls_cert_key = refl
find_key-key_text Fields.tls_key_key = refl
find_key-key_text Fields.auth_token_key = refl
find_key-key_text Fields.idle_timeout_key = refl
find_key-key_text Fields.max_connections_key = refl
find_key-key_text Fields.shutdown_timeout_key = refl

module _ (c : Config) (v : IsValid c) (r : InRange c) where
  set_key-value_text :
      (cfg : Config) (key : Key) → set_key cfg key (value_text c key) ≡ returns (put c key cfg)
  unfolding set_key
  set_key-value_text cfg Fields.addr_key = refl
  set_key-value_text cfg Fields.pprof_addr_key = refl
  set_key-value_text cfg Fields.shards_key =
      parse_int-print Fields.shards_key c.shards (λ n. record cfg { shards = n }) v.shards.0
        r.shards_range
  set_key-value_text cfg Fields.max_value_bytes_key =
      parse_int-print Fields.max_value_bytes_key c.max_value_bytes
        (λ n. record cfg { max_value_bytes = n }) v.value.0 r.max_value_bytes_range
  set_key-value_text cfg Fields.max_memory_bytes_key =
      parse_int-print Fields.max_memory_bytes_key c.max_memory_bytes
        (λ n. record cfg { max_memory_bytes = n }) v.memory.0 r.max_memory_bytes_range
  set_key-value_text cfg Fields.item_overhead_bytes_key =
      parse_int-print Fields.item_overhead_bytes_key c.item_overhead_bytes
        (λ n. record cfg { item_overhead_bytes = n }) v.overhead r.item_overhead_bytes_range
  set_key-value_text cfg Fields.cleanup_interval_key =
      duration_field-print Fields.cleanup_interval_key c.cleanup_interval
        (λ n. record cfg { cleanup_interval = n }) v.interval r.cleanup_interval_range
  set_key-value_text cfg Fields.tls_cert_key = refl
  set_key-value_text cfg Fields.tls_key_key = refl
  set_key-value_text cfg Fields.auth_token_key = refl
  set_key-value_text cfg Fields.idle_timeout_key =
      duration_field-print Fields.idle_timeout_key c.idle_timeout
        (λ n. record cfg { idle_timeout = n }) v.idle r.idle_timeout_range
  set_key-value_text cfg Fields.max_connections_key =
      parse_int-print Fields.max_connections_key c.max_connections
        (λ n. record cfg { max_connections = n }) v.connections r.max_connections_range
  set_key-value_text cfg Fields.shutdown_timeout_key =
      duration_field-print Fields.shutdown_timeout_key c.shutdown_timeout
        (λ n. record cfg { shutdown_timeout = n }) v.shutdown r.shutdown_timeout_range

  set_field-value_text :
      (cfg : Config) (key : Key)
      → set_field cfg (key_text key) (value_text c key) ≡ returns (put c key cfg)
  unfolding set_field
  set_field-value_text cfg key =
      ap (set_found cfg (key_text key) (value_text c key)) (find_key-key_text key)
      ∙ set_key-value_text cfg key

  pub print_line-IsShortLine :
      (t : IsText c) (keys : List Key) → All IsShortLine (map (print_line c) keys)
  print_line-IsShortLine t [] = tt
  print_line-IsShortLine t (key ∷ keys) =
      let (b, bs, e, k, l) = key_text-IsKeyText key in
      (
        subst (λ s. IsShortLine (line_text s (value_text c key))) (sym e)
            (line_text-IsShortLine b bs (value_text c key) k l (value_text-IsValue c key t)),
        print_line-IsShortLine t keys,
      )

  module _ {E : Type 0} (t : IsText c) where
    load_line-print_line :
        (cfg : Config) (n : ℕ) (key : Key)
        → load_line {E = E} cfg n (trim_space (drop_cr (print_line c key)))
          ≡ returns (put c key cfg)
    load_line-print_line cfg n key =
        let (b, bs, e, k, _) = key_text-IsKeyText key in
        let w = value_text c key in
        ap (λ s. load_line cfg n (trim_space (drop_cr (line_text s w)))) e
        ∙ load_line-line_text b bs w k (value_text-IsValue c key t).trimmed cfg n
        ∙ ap (wrap_error (bad_field n))
            (ap (λ s. set_field cfg s w) (sym e) ∙ set_field-value_text cfg key)

    load_lines-print :
        (cfg : Config) (n : ℕ) (keys : List Key)
        → load_lines {E = E} cfg n (map drop_cr (map (print_line c) keys))
          ≡ returns (put_all c keys cfg)
    unfolding load_lines
    load_lines-print cfg n [] = refl
    load_lines-print cfg n (key ∷ keys) =
        ap
          (λ o.
            and_then o (λ next. load_lines next (suc n) (map drop_cr (map (print_line c) keys))))
          (load_line-print_line cfg (suc n) key)
        ∙ load_lines-print (put c key cfg) (suc n) keys

    -- A valid configuration of 64-bit numbers whose strings have no white space at their ends, no
    -- newline and fewer than 2^15 bytes, printed with a line for each key and its durations in
    -- nanoseconds, is loaded as it was.
    pub load-print :
        load {E = E} (returns (record { content = print c; read_error = none })) ≡ returns c
    unfolding load load_file
    load-print =
        ap (λ s. and_then (load_lines default 0 s.0) (check_scan s.1))
          (scan-unlines {E = E} (map (print_line c) all_keys) (print_line-IsShortLine t all_keys))
        ∙ ap (λ o. and_then o (check_scan none)) (load_lines-print default 0 all_keys)
        ∙ ap (λ o. check_config o c) (IsValid-validate c v)
