-- ===== src/Config/Scanner.antt =====
-- `bufio.Scanner` with its lines, as internal/config/config.go reads a file: the bytes that the file
-- gives, and the error that ends them if it is not the end of the file.
use mini_key_value_store.Prelude.{
  ℕ, ◌^◌, Bytes, List, [], ◌∷◌, ◌==◌, ltb, if◌then◌else◌, length, Option, none, some,
}
use mini_key_value_store.Config.{is_empty}

-- `bufio.MaxScanTokenSize`: a line of so many bytes fills the buffer before its end is seen.
abbrev pub max_scan_token_size : ℕ
max_scan_token_size = 2 ^ 16

-- An open file, with the error that a read of it ends in, if there is one.
pub record File (E : Type 0) : Type 0 where
  pub content : Bytes
  pub read_error : Option E

pub data ScanError (E : Type 0) : Type 0 where
  token_too_long : ScanError E
  read_failed : E → ScanError E

-- A line without the carriage return at its end.
unfoldable pub drop_cr : Bytes → Bytes
drop_cr [] = []
drop_cr (b ∷ bs) =
    let rest = drop_cr bs in if is_empty bs then (if b == 13 then [] else b ∷ []) else b ∷ rest

-- The bytes up to a newline, for each; what stands after the last newline is a line if it is not
-- empty.
abbrev add_byte : ℕ → List Bytes → List Bytes
add_byte b [] = (b ∷ []) ∷ []
add_byte b (l ∷ ls) = (b ∷ l) ∷ ls

unfoldable pub split_lines : Bytes → List Bytes
split_lines [] = []
split_lines (b ∷ bs) = let rest = split_lines bs in if b == 10 then [] ∷ rest else add_byte b rest

-- The lines that `Scan` and `Text` give, and what `Err` says after them.
unfoldable pub scan_lines : {E : Type 0} → Option E → List Bytes → List Bytes × Option (ScanError E)
unfolding drop_cr
scan_lines none [] = ([], none)
scan_lines (some e) [] = ([], some (read_failed e))
scan_lines read_error (l ∷ ls) =
    let (lines, error) = scan_lines read_error ls in
    if ltb (length l) max_scan_token_size
    then (drop_cr l ∷ lines, error)
    else ([], some token_too_long)

unfoldable pub scan : {E : Type 0} → File E → List Bytes × Option (ScanError E)
unfolding split_lines scan_lines
scan file = scan_lines file.read_error (split_lines file.content)
