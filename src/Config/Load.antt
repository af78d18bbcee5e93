-- ===== src/Config/Load.antt =====
-- internal/config/config.go: `validate` and `Load`.
use mini_key_value_store.Prelude.{
  ℕ, suc, Bool, true, false, not, ltb, if◌then◌else◌, Bytes, List, [], ◌∷◌, Option, none, some, ℤ,
  pos, negsuc, Outcome, returns, fails, and_then, wrap_error,
}
use mini_key_value_store.Store.Config.{is_nonpositive, is_negative}
use mini_key_value_store.Config.{Config, default, is_empty}
use mini_key_value_store.Config.Text.{trim_space, has_hash, cut}
use mini_key_value_store.Config.Scanner.{File, ScanError, scan}
use mini_key_value_store.Config.Fields.{FieldError, set_field}

pub data InvalidConfig : Type 0 where
  value_not_positive memory_not_positive overhead_negative value_above_memory interval_negative
        shards_not_positive tls_not_together idle_negative connections_negative shutdown_negative :
      InvalidConfig

-- `a < b` on ints
abbrev pub lt : ℤ → ℤ → Bool
lt (pos a) (pos b) = ltb a b
lt (pos a) (negsuc b) = false
lt (negsuc a) (pos b) = true
lt (negsuc a) (negsuc b) = ltb b a

abbrev pub differ : Bool → Bool → Bool
differ true b = not b
differ false b = b

-- `none` stands for the nil error.
unfoldable pub validate : Config → Option InvalidConfig
validate c =
    if is_nonpositive c.max_value_bytes
    then some value_not_positive
    else if is_nonpositive c.max_memory_bytes
    then some memory_not_positive
    else if is_negative c.item_overhead_bytes
    then some overhead_negative
    else if lt c.max_memory_bytes c.max_value_bytes
    then some value_above_memory
    else if is_negative c.cleanup_interval
    then some interval_negative
    else if is_nonpositive c.shards
    then some shards_not_positive
    else if differ (is_empty c.tls_cert) (is_empty c.tls_key)
    then some tls_not_together
    else if is_negative c.idle_timeout
    then some idle_negative
    else if is_negative c.max_connections
    then some connections_negative
    else if is_negative c.shutdown_timeout
    then some shutdown_negative
    else none

-- The errors of `Load`, without the path that each of a line or of `validate` begins with. A line
-- number starts at 1.
pub data LoadError (E : Type 0) : Type 0 where
  open_failed : E → LoadError E
  expected_key_value : ℕ → LoadError E
  bad_field : ℕ → FieldError → LoadError E
  scan_failed : ScanError E → LoadError E
  invalid : InvalidConfig → LoadError E

unfoldable pub load_entry :
    {E : Type 0} → Config → ℕ → Option (Bytes × Bytes) → Outcome (LoadError E) Config
unfolding set_field trim_space
load_entry cfg line_no none = fails (expected_key_value line_no)
load_entry cfg line_no (some (key, value)) =
    wrap_error (bad_field line_no) (set_field cfg (trim_space key) (trim_space value))

-- The body of the loop of `Load`, on a line that is trimmed.
unfoldable pub load_line : {E : Type 0} → Config → ℕ → Bytes → Outcome (LoadError E) Config
unfolding load_entry cut
load_line cfg line_no [] = returns cfg
load_line cfg line_no (b ∷ bs) =
    if has_hash (b ∷ bs) then returns cfg else load_entry cfg line_no (cut (b ∷ bs))

-- The loop, after `line_no` lines.
unfoldable pub load_lines : {E : Type 0} → Config → ℕ → List Bytes → Outcome (LoadError E) Config
unfolding load_line trim_space
load_lines cfg line_no [] = returns cfg
load_lines cfg line_no (line ∷ lines) =
    and_then (load_line cfg (suc line_no) (trim_space line))
      (λ next. load_lines next (suc line_no) lines)

-- What follows the loop.
abbrev pub check_config :
    {E : Type 0} → Option InvalidConfig → Config → Outcome (LoadError E) Config
check_config (some e) cfg = fails (invalid e)
check_config none cfg = returns cfg

abbrev pub check_scan : {E : Type 0} → Option (ScanError E) → Config → Outcome (LoadError E) Config
check_scan (some e) cfg = fails (scan_failed e)
check_scan none cfg = check_config (validate cfg) cfg

unfoldable pub load_file : {E : Type 0} → File E → Outcome (LoadError E) Config
unfolding load_lines validate scan default
load_file file =
    let (lines, error) = scan file in and_then (load_lines default 0 lines) (check_scan error)

-- `Load`, with what `os.Open` of the path comes to.
unfoldable pub load : {E : Type 0} → Outcome E (File E) → Outcome (LoadError E) Config
unfolding load_file
load opened = and_then (wrap_error open_failed opened) load_file
