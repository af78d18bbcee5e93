-- ===== src/Config/Shape.antt =====
-- internal/config/config.go: that the lines of a printed file are short lines with a key and a value.
use mini_key_value_store.Prelude.{
  ℕ, zero, suc, ◌+◌, ◌/◌, ◌%◌, ◌^◌, ◌≤◌, ◌<◌, true, false, ltb, Bytes, List, [], ◌∷◌, ◌++◌, map,
  length, All, Option, none, ◌≡◌, ◌≢◌, arith, refl, sym, ap, ◌∙◌, length-append,
}
use mini_key_value_store.Item.{all_digits, is_decimal}
use mini_key_value_store.Decimal.{format_digits, format_uint}
use mini_key_value_store.Decimal.Roundtrip.{is_decimal-format_uint}
use mini_key_value_store.Protocol.Lines.{IsPrintable}
use mini_key_value_store.Store.Config.{magnitude}
use mini_key_value_store.Config.{Config}
use mini_key_value_store.Config.Fields
use mini_key_value_store.Config.Fields.{Key}
use mini_key_value_store.Config.Text.{trim_left, trim_right}
use mini_key_value_store.Config.Scanner.{
  ScanError, drop_cr, split_lines, scan_lines, scan, max_scan_token_size,
}
use mini_key_value_store.Config.Lines.{
  unlines, split_lines-unlines, scan_lines-append, IsLine, IsTrimmed, trim_left-IsPrintable,
}
use mini_key_value_store.Config.Numbers.{ns}
use mini_key_value_store.Config.Print.{key_text, value_text, line_text, IsValue, IsText}
use mini_key_value_store.Config.Entries.{append-nil, IsKeyText, trim_right-printable}

-- The text of a key, short and not empty.
abbrev pub KeyShape : Bytes → Type 0
KeyShape s = (b : ℕ) × (bs : Bytes) × (s ≡ b ∷ bs) × IsKeyText b bs × (length bs < 2 ^ 14)

key_shape :
    (b : ℕ) (bs : Bytes)
    → All IsPrintable (b ∷ bs)
    → All (λ a. a ≢ b'=') (b ∷ bs)
    → b ≢ b'#'
    → length bs < 2 ^ 14
    → KeyShape (b ∷ bs)
key_shape b bs p e n l = (b, bs, refl, record { printable = p; no_equals = e; no_hash = n }, l)

pub key_text-IsKeyText : (key : Key) → KeyShape (key_text key)
key_text-IsKeyText Fields.addr_key =
    key_shape b'a' _ (omega arith) (omega arith) (omega arith) (omega arith)
key_text-IsKeyText Fields.pprof_addr_key =
    key_shape b'p' _ (omega arith) (omega arith) (omega arith) (omega arith)
key_text-IsKeyText Fields.shards_key =
    key_shape b's' _ (omega arith) (omega arith) (omega arith) (omega arith)
key_text-IsKeyText Fields.max_value_bytes_key =
    key_shape b'm' _ (omega arith) (omega arith) (omega arith) (omega arith)
key_text-IsKeyText Fields.max_memory_bytes_key =
    key_shape b'm' _ (omega arith) (omega arith) (omega arith) (omega arith)
key_text-IsKeyText Fields.item_overhead_bytes_key =
    key_shape b'i' _ (omega arith) (omega arith) (omega arith) (omega arith)
key_text-IsKeyText Fields.cleanup_interval_key =
    key_shape b'c' _ (omega arith) (omega arith) (omega arith) (omega arith)
key_text-IsKeyText Fields.tls_cert_key =
    key_shape b't' _ (omega arith) (omega arith) (omega arith) (omega arith)
key_text-IsKeyText Fields.tls_key_key =
    key_shape b't' _ (omega arith) (omega arith) (omega arith) (omega arith)
key_text-IsKeyText Fields.auth_token_key =
    key_shape b'a' _ (omega arith) (omega arith) (omega arith) (omega arith)
key_text-IsKeyText Fields.idle_timeout_key =
    key_shape b'i' _ (omega arith) (omega arith) (omega arith) (omega arith)
key_text-IsKeyText Fields.max_connections_key =
    key_shape b'm' _ (omega arith) (omega arith) (omega arith) (omega arith)
key_text-IsKeyText Fields.shutdown_timeout_key =
    key_shape b's' _ (omega arith) (omega arith) (omega arith) (omega arith)

pub IsPrintable-IsLine : (s : Bytes) → All IsPrintable s → IsLine s
IsPrintable-IsLine [] h = tt
IsPrintable-IsLine (b ∷ s) h = (omega (arith, h.0), IsPrintable-IsLine s h.1)

pub IsLine-append : (k v : Bytes) → IsLine k → IsLine v → IsLine (k ++ v)
IsLine-append [] v h g = g
IsLine-append (b ∷ k) v h g = (h.0, IsLine-append k v h.1 g)

IsPrintable-append :
    (k v : Bytes) → All IsPrintable k → All IsPrintable v → All IsPrintable (k ++ v)
IsPrintable-append [] v h g = g
IsPrintable-append (b ∷ k) v h g = (h.0, IsPrintable-append k v h.1 g)

IsPrintable-IsTrimmed : (s : Bytes) → All IsPrintable s → IsTrimmed s
IsPrintable-IsTrimmed [] h = record {
  left = unfold trim_left in refl;
  right = unfold trim_right in refl;
}
IsPrintable-IsTrimmed (b ∷ s) h = record {
  left = trim_left-IsPrintable b s h.0;
  right = trim_right-printable (b ∷ s) h;
}

digit-IsPrintable :
    (b : ℕ) (s : Bytes) → all_digits (b ∷ s) ≡ true → IsPrintable b × (all_digits s ≡ true)
unfolding all_digits
digit-IsPrintable b s h = ground arith

all_digits-IsPrintable : (s : Bytes) → all_digits s ≡ true → All IsPrintable s
all_digits-IsPrintable [] h = tt
all_digits-IsPrintable (b ∷ s) h =
    let (p, r) = digit-IsPrintable b s h in (p, all_digits-IsPrintable s r)

is_decimal-IsPrintable : (s : Bytes) → is_decimal s ≡ true → All IsPrintable s
unfolding is_decimal
is_decimal-IsPrintable [] h = tt
is_decimal-IsPrintable (b ∷ s) h = all_digits-IsPrintable (b ∷ s) h

length-format_digits :
    (fuel n : ℕ) (rest : Bytes) → length (format_digits fuel n rest) ≤ fuel + length rest
unfolding format_digits
length-format_digits zero n rest = omega arith
length-format_digits (suc fuel) n rest =
    elim (ltb n 10)
      as (λ t.
        length (elim t as (λ _. Bytes) [
          | true ↦ (b'0' + n % 10) ∷ rest
          | false ↦ format_digits fuel (n / 10) ((b'0' + n % 10) ∷ rest)
        ])
        ≤ suc fuel + length rest) [
          | true ↦ omega arith
          | false ↦ omega (arith, length-format_digits fuel (n / 10) ((b'0' + n % 10) ∷ rest))
        ]

pub printable-IsValue : (s : Bytes) → All IsPrintable s → length s < 2 ^ 15 → IsValue s
printable-IsValue s h l = record {
  trimmed = IsPrintable-IsTrimmed s h;
  line = IsPrintable-IsLine s h;
  short = l;
}

number-IsValue : (n : ℕ) → IsValue (format_uint n)
unfolding format_uint
number-IsValue n =
    printable-IsValue (format_uint n)
      (is_decimal-IsPrintable (format_uint n) (is_decimal-format_uint n))
      (omega (arith, length-format_digits 20 n []))

duration-IsValue : (n : ℕ) → IsValue (format_uint n ++ ns)
unfolding format_uint
duration-IsValue n =
    printable-IsValue (format_uint n ++ ns)
      (IsPrintable-append (format_uint n) ns
        (is_decimal-IsPrintable (format_uint n) (is_decimal-format_uint n)) (omega arith))
      (omega (arith, length-append (format_uint n) ns, length-format_digits 20 n []))

pub value_text-IsValue : (c : Config) (key : Key) → IsText c → IsValue (value_text c key)
value_text-IsValue c Fields.addr_key t = t.addr_text
value_text-IsValue c Fields.pprof_addr_key t = t.pprof_addr_text
value_text-IsValue c Fields.shards_key t = number-IsValue (magnitude c.shards)
value_text-IsValue c Fields.max_value_bytes_key t = number-IsValue (magnitude c.max_value_bytes)
value_text-IsValue c Fields.max_memory_bytes_key t = number-IsValue (magnitude c.max_memory_bytes)
value_text-IsValue c Fields.item_overhead_bytes_key t =
    number-IsValue (magnitude c.item_overhead_bytes)
value_text-IsValue c Fields.cleanup_interval_key t = duration-IsValue (magnitude c.cleanup_interval)
value_text-IsValue c Fields.tls_cert_key t = t.tls_cert_text
value_text-IsValue c Fields.tls_key_key t = t.tls_key_text
value_text-IsValue c Fields.auth_token_key t = t.auth_token_text
value_text-IsValue c Fields.idle_timeout_key t = duration-IsValue (magnitude c.idle_timeout)
value_text-IsValue c Fields.max_connections_key t = number-IsValue (magnitude c.max_connections)
value_text-IsValue c Fields.shutdown_timeout_key t = duration-IsValue (magnitude c.shutdown_timeout)

-- A line of the file.
abbrev pub IsShortLine : Bytes → Type 0
IsShortLine l = IsLine l × (length l < max_scan_token_size)

pub line_text-IsShortLine :
    (b : ℕ) (bs v : Bytes)
    → IsKeyText b bs
    → length bs < 2 ^ 14
    → IsValue v
    → IsShortLine (line_text (b ∷ bs) v)
line_text-IsShortLine b bs v k l h = (
  IsLine-append (b ∷ bs) (b'=' ∷ v) (IsPrintable-IsLine (b ∷ bs) k.printable) (omega arith, h.line),
  omega (arith, length-append bs (b'=' ∷ v), l, h.short),
)

shorts :
    (ls : List Bytes)
    → All IsShortLine ls
    → All IsLine ls × All (λ l. length l < max_scan_token_size) ls
shorts [] h = (tt, tt)
shorts (l ∷ ls) h = let (a, b) = shorts ls h.1 in ((h.0.0, a), (h.0.1, b))

-- Short lines are scanned as they are, up to a carriage return at the end of one, and then what
-- follows them.
pub scan-unlines_rest :
    {E : Type 0} (e : Option E) (ls : List Bytes) (rest : Bytes)
    → All IsShortLine ls
    → scan (record { content = unlines ls ++ rest; read_error = e })
      ≡ (map drop_cr ls ++ (scan_lines e (split_lines rest)).0, (scan_lines e (split_lines rest)).1)
unfolding scan
scan-unlines_rest e ls rest h =
    let (a, b) = shorts ls h in
    ap (scan_lines e) (split_lines-unlines ls rest a) ∙ scan_lines-append e ls (split_lines rest) b

pub scan-unlines :
    {E : Type 0} (ls : List Bytes)
    → All IsShortLine ls
    → scan {E = E} (record { content = unlines ls; read_error = none }) ≡ (map drop_cr ls, none)
scan-unlines {E = E} ls h =
    ap (λ s. scan {E = E} (record { content = s; read_error = none }))
      (sym (append-nil (unlines ls)))
    ∙ scan-unlines_rest none ls [] h
    ∙ nothing_left
  where
    nothing_left :
        ◌≡◌ {A = List Bytes × Option (ScanError E)}
          (
            map drop_cr ls ++ (scan_lines {E = E} none (split_lines [])).0,
            (scan_lines {E = E} none (split_lines [])).1,
          )
          (map drop_cr ls, none)
    nothing_left =
        unfold scan_lines split_lines in ap (λ xs. (xs, none)) (append-nil (map drop_cr ls))
