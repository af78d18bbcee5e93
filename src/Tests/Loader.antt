-- ===== src/Tests/Loader.antt =====
-- Tests of the configuration loader, and a concrete case of each theorem on it.
use mini_key_value_store.Prelude.{
  ℕ, List, [], ◌∷◌, ◌++◌, map, Bytes, bytes_discrete, ℕ_discrete, ◌≡◌, refl, none, pos, negsuc,
  returns, fails, arith,
}
use mini_key_value_store.Config.{default}
use mini_key_value_store.Config.Duration.{parse_duration, missing_unit}
use mini_key_value_store.Config.Load.{load}
use mini_key_value_store.Config.InRange.{InRange, default-InRange}
use mini_key_value_store.Config.Valid.{IsValid, load-IsValid}
use mini_key_value_store.Config.Print.{print, print_line, all_keys, IsText, IsValue}
use mini_key_value_store.Config.Shape.{printable-IsValue}
use mini_key_value_store.Config.RoundTrip.{load-print}

-- "1.5h", "-90s", and a sum that wraps around uint64
hour_and_a_half : parse_duration (b'1' ∷ b'.' ∷ b'5' ∷ b'h' ∷ []) ≡ returns (pos 5400000000000)
unfolding parse_duration bytes_discrete ℕ_discrete
hour_and_a_half = refl

minus_ninety : parse_duration (b'-' ∷ b'9' ∷ b'0' ∷ b's' ∷ []) ≡ returns (negsuc 89999999999)
unfolding parse_duration bytes_discrete ℕ_discrete
minus_ninety = refl

no_unit : parse_duration (b'9' ∷ b'0' ∷ []) ≡ fails missing_unit
unfolding parse_duration bytes_discrete ℕ_discrete
no_unit = refl

half : Bytes
half =
    b'9' ∷ b'2' ∷ b'2' ∷ b'3' ∷ b'3' ∷ b'7' ∷ b'2' ∷ b'0' ∷ b'3' ∷ b'6' ∷ b'8' ∷ b'5' ∷ b'4' ∷ b'7'
    ∷ b'7' ∷ b'5' ∷ b'8' ∷ b'0' ∷ b'8' ∷ b'n' ∷ b's' ∷ []

twice_half : parse_duration (half ++ half) ≡ returns (pos 0)
unfolding parse_duration bytes_discrete ℕ_discrete half
twice_half = refl

pub default-IsValid : IsValid default
unfolding default
default-IsValid = record {
  value = (refl, omega arith);
  memory = (refl, omega arith);
  overhead = refl;
  room = omega arith;
  interval = refl;
  shards = (refl, omega arith);
  tls = (λ e. e, λ e. e);
  idle = refl;
  connections = refl;
  shutdown = refl;
}

empty-IsValue : IsValue []
empty-IsValue = printable-IsValue [] tt (omega arith)

pub default-IsText : IsText default
unfolding default
default-IsText = record {
  addr_text =
      printable-IsValue
        (b'0' ∷ b'.' ∷ b'0' ∷ b'.' ∷ b'0' ∷ b'.' ∷ b'0' ∷ b':' ∷ b'1' ∷ b'1' ∷ b'2' ∷ b'1' ∷ b'1'
          ∷ [])
        (omega arith) (omega arith);
  pprof_addr_text = empty-IsValue;
  tls_cert_text = empty-IsValue;
  tls_key_text = empty-IsValue;
  auth_token_text = empty-IsValue;
}

load-print_example :
    load {E = ℕ} (returns (record { content = print default; read_error = none })) ≡ returns default
load-print_example = load-print default default-IsValid default-InRange default-IsText

load-IsValid_example : IsValid default × InRange default
load-IsValid_example =
    load-IsValid {E = ℕ} (returns (record { content = print default; read_error = none })) default
      (load-print default default-IsValid default-InRange default-IsText)

abbrev lines : List Bytes
lines = map (print_line default) all_keys
