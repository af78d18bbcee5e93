-- ===== src/Config/Valid.antt =====
-- internal/config/config.go: the configurations that `Load` returns.
use mini_key_value_store.Prelude.{
  zero, suc, ◌≤◌, ◌<◌, Bool, true, false, Bytes, [], ◌∷◌, ◌≡◌, ◌↔◌, refl, Option, none, some, ℤ,
  pos, negsuc, Outcome, returns, and_then-returns, wrap_error, arith, subst, if◌then◌else◌,
  le→ltb_false,
}
use mini_key_value_store.Store.Config.{magnitude, is_nonpositive, is_negative}
use mini_key_value_store.Config.{Config, default, is_empty}
use mini_key_value_store.Config.Scanner.{File, ScanError, scan}
use mini_key_value_store.Config.Load.{
  InvalidConfig, lt, differ, validate, load_lines, check_config, check_scan, load_file, load,
  open_failed,
}
use mini_key_value_store.Config.InRange.{InRange, default-InRange, load_lines-InRange}

-- `0 <= n` and `0 < n` on ints
abbrev pub IsNatural : ℤ → Type 0
IsNatural n = n ≡ pos (magnitude n)

abbrev pub IsPositive : ℤ → Type 0
IsPositive n = IsNatural n × (0 < magnitude n)

-- What the configuration of a server that starts satisfies.
pub record IsValid (c : Config) : Type 0 where
  pub value : IsPositive c.max_value_bytes
  pub memory : IsPositive c.max_memory_bytes
  pub overhead : IsNatural c.item_overhead_bytes
  pub room : magnitude c.max_value_bytes ≤ magnitude c.max_memory_bytes
  pub interval : IsNatural c.cleanup_interval
  pub shards : IsPositive c.shards
  pub tls : (c.tls_cert ≡ []) ↔ (c.tls_key ≡ [])
  pub idle : IsNatural c.idle_timeout
  pub connections : IsNatural c.max_connections
  pub shutdown : IsNatural c.shutdown_timeout

nonpositive_test : (n : ℤ) → is_nonpositive n ≡ false → IsPositive n
nonpositive_test (pos zero) e = absurd (cc)
nonpositive_test (pos (suc n)) e = (refl, omega arith)
nonpositive_test (negsuc n) e = absurd (cc)

negative_test : (n : ℤ) → is_negative n ≡ false → IsNatural n
negative_test (pos n) e = refl
negative_test (negsuc n) e = absurd (cc)

lt_test : (m n : ℤ) → IsNatural m → IsNatural n → lt m n ≡ false → magnitude n ≤ magnitude m
lt_test (pos m) (pos n) p q e = ground arith
lt_test (pos m) (negsuc n) p q e = omega arith
lt_test (negsuc m) (pos n) p q e = absurd (cc)
lt_test (negsuc m) (negsuc n) p q e = omega arith

together_test :
    (cert key : Bytes) → differ (is_empty cert) (is_empty key) ≡ false → (cert ≡ []) ↔ (key ≡ [])
together_test [] [] e = (λ _. refl, λ _. refl)
together_test [] (b ∷ bs) e = absurd (cc)
together_test (b ∷ bs) [] e = absurd (cc)
together_test (b ∷ bs) (c ∷ cs) e = (λ p. absurd (cc), λ p. absurd (cc))

if_refuses :
    {A : Type 0} (b : Bool) (a : A) (o : Option A)
    → (if b then some a else o) ≡ none
    → (b ≡ false) × (o ≡ none)
if_refuses true a o e = absurd (cc)
if_refuses false a o e = (refl, e)

-- A configuration that passes `validate` is valid.
pub validate-IsValid : (c : Config) → validate c ≡ none → IsValid c
unfolding validate
validate-IsValid c e =
    let (value, e) = if_refuses _ _ _ e in
    let (memory, e) = if_refuses _ _ _ e in
    let (overhead, e) = if_refuses _ _ _ e in
    let (room, e) = if_refuses _ _ _ e in
    let (interval, e) = if_refuses _ _ _ e in
    let (shards, e) = if_refuses _ _ _ e in
    let (tls, e) = if_refuses _ _ _ e in
    let (idle, e) = if_refuses _ _ _ e in
    let (connections, e) = if_refuses _ _ _ e in
    let (shutdown, _) = if_refuses _ _ _ e in
    let v = nonpositive_test c.max_value_bytes value in
    let m = nonpositive_test c.max_memory_bytes memory in
    record {
      value = v;
      memory = m;
      overhead = negative_test c.item_overhead_bytes overhead;
      room = lt_test c.max_memory_bytes c.max_value_bytes m.0 v.0 room;
      interval = negative_test c.cleanup_interval interval;
      shards = nonpositive_test c.shards shards;
      tls = together_test c.tls_cert c.tls_key tls;
      idle = negative_test c.idle_timeout idle;
      connections = negative_test c.max_connections connections;
      shutdown = negative_test c.shutdown_timeout shutdown;
    }

pub nonpositive-IsPositive : (n : ℤ) → IsPositive n → is_nonpositive n ≡ false
nonpositive-IsPositive (pos zero) p = absurd (omega (arith, p.1))
nonpositive-IsPositive (pos (suc n)) p = refl
nonpositive-IsPositive (negsuc n) p = absurd (omega (arith, p.1))

pub negative-IsNatural : (n : ℤ) → IsNatural n → is_negative n ≡ false
negative-IsNatural (pos n) p = refl
negative-IsNatural (negsuc n) p = absurd (cc)

lt-IsNatural : (m n : ℤ) → IsNatural m → IsNatural n → magnitude n ≤ magnitude m → lt m n ≡ false
lt-IsNatural (pos m) (pos n) p q h = le→ltb_false m n h
lt-IsNatural (pos m) (negsuc n) p q h = refl
lt-IsNatural (negsuc m) n p q h = absurd (cc)

differ-together :
    (cert key : Bytes) → (cert ≡ []) ↔ (key ≡ []) → differ (is_empty cert) (is_empty key) ≡ false
differ-together [] [] e = refl
differ-together [] (b ∷ bs) e = let q : b ∷ bs ≡ [] = e.0 refl in absurd (cc)
differ-together (b ∷ bs) [] e = let q : b ∷ bs ≡ [] = e.1 refl in absurd (cc)
differ-together (b ∷ bs) (c ∷ cs) e = refl

-- A valid configuration passes.
pub IsValid-validate : (c : Config) → IsValid c → validate c ≡ none
unfolding validate
IsValid-validate c v = rw (
  nonpositive-IsPositive c.max_value_bytes v.value,
  nonpositive-IsPositive c.max_memory_bytes v.memory,
  negative-IsNatural c.item_overhead_bytes v.overhead,
  lt-IsNatural c.max_memory_bytes c.max_value_bytes v.memory.0 v.value.0 v.room,
  negative-IsNatural c.cleanup_interval v.interval,
  nonpositive-IsPositive c.shards v.shards,
  differ-together c.tls_cert c.tls_key v.tls,
  negative-IsNatural c.idle_timeout v.idle,
  negative-IsNatural c.max_connections v.connections,
  negative-IsNatural c.shutdown_timeout v.shutdown,
)

config_checked :
    {E : Type 0} (o : Option InvalidConfig) (cfg c : Config)
    → check_config {E = E} o cfg ≡ returns c
    → (cfg ≡ c) × (o ≡ none)
config_checked (some e) cfg c r = absurd (cc)
config_checked none cfg c r = (cc, refl)

pub scan_checked :
    {E : Type 0} (error : Option (ScanError E)) (cfg c : Config)
    → check_scan error cfg ≡ returns c
    → (error ≡ none) × (cfg ≡ c) × (validate c ≡ none)
scan_checked (some e) cfg c r = absurd (cc)
scan_checked none cfg c r =
    let (same, valid) = config_checked (validate cfg) cfg c r in
    (refl, same, subst (λ d. validate d ≡ none) same valid)

-- A configuration that `Load` returns, whatever the file, is valid: its sizes and shards are
-- positive, the largest value fits the memory, the intervals and timeouts are not negative, and
-- the certificate and its key are set together or not at all; and each of its ints and durations
-- is one of 64 bits.
pub load-IsValid :
    {E : Type 0} (opened : Outcome E (File E)) (c : Config)
    → load opened ≡ returns c
    → IsValid c × InRange c
unfolding load load_file
load-IsValid opened c e =
    let (file, t, q) = and_then-returns (wrap_error open_failed opened) load_file c e in
    let (cfg, r, k) =
      and_then-returns (load_lines default 0 (scan file).0) (check_scan (scan file).1) c q in
    let (_, same, valid) = scan_checked (scan file).1 cfg c k in
    (
      validate-IsValid c valid,
      subst InRange same (load_lines-InRange default 0 (scan file).0 cfg default-InRange r),
    )
