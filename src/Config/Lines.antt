-- ===== src/Config/Lines.antt =====
-- internal/config/config.go: reading the lines of a printed file.
use mini_key_value_store.Prelude.{
  ℕ, ◌<◌, Bool, true, false, Bytes, List, [], ◌∷◌, ◌++◌, map, length, All, ◌≡◌, ◌≢◌, Option, none,
  some, arith, ◌==◌, refl, ap, ◌∙◌, subst, lt→ltb, Bool-cases, inl, inr, if◌then◌else◌,
}
use mini_key_value_store.Protocol.Fields.{space_width}
use mini_key_value_store.Protocol.Lines.{IsPrintable, space_width-IsPrintable}
use mini_key_value_store.Config.{is_empty}
use mini_key_value_store.Config.Text.{trim_left, trim_left_from, trim_right, cut}
use mini_key_value_store.Config.Scanner.{drop_cr, split_lines, scan_lines, max_scan_token_size}

-- The lines, each with a newline after it.
abbrev pub unlines : List Bytes → Bytes
unlines [] = []
unlines (l ∷ ls) = l ++ b'\n' ∷ unlines ls

-- No byte is a newline.
abbrev pub IsLine : Bytes → Type 0
IsLine l = All (λ b. b ≢ b'\n') l

-- No white space at either end.
pub record IsTrimmed (s : Bytes) : Type 0 where
  pub left : trim_left s ≡ s
  pub right : trim_right s ≡ s

not_newline : (b : ℕ) → b ≢ b'\n' → b == b'\n' ≡ false
not_newline b n = ground arith

pub split_lines-line :
    (l rest : Bytes) → IsLine l → split_lines (l ++ b'\n' ∷ rest) ≡ l ∷ split_lines rest
unfolding split_lines
split_lines-line [] rest h = refl
split_lines-line (b ∷ l) rest h = rw (not_newline b h.0, split_lines-line l rest h.1)

pub append-append : (xs ys zs : Bytes) → (xs ++ ys) ++ zs ≡ xs ++ (ys ++ zs)
append-append [] ys zs = refl
append-append (x ∷ xs) ys zs = ap (◌∷◌ x) (append-append xs ys zs)

pub split_lines-unlines :
    (ls : List Bytes) (rest : Bytes)
    → All IsLine ls
    → split_lines (unlines ls ++ rest) ≡ ls ++ split_lines rest
split_lines-unlines [] rest h = refl
split_lines-unlines (l ∷ ls) rest h =
    ap split_lines (append-append l (b'\n' ∷ unlines ls) rest)
    ∙ split_lines-line l (unlines ls ++ rest) h.0
    ∙ ap (◌∷◌ l) (split_lines-unlines ls rest h.1)

pub trim_left-IsPrintable : (b : ℕ) (bs : Bytes) → IsPrintable b → trim_left (b ∷ bs) ≡ b ∷ bs
unfolding trim_left
trim_left-IsPrintable b bs h = rw (trim_left_from, space_width-IsPrintable b bs h)

pub trim_right-IsPrintable :
    (b : ℕ) (bs : Bytes) → IsPrintable b → trim_right (b ∷ bs) ≡ b ∷ trim_right bs
unfolding trim_right
trim_right-IsPrintable b bs h = rw (trim_left-IsPrintable b bs h)

pub trim_right-append : (k v : Bytes) → All IsPrintable k → trim_right (k ++ v) ≡ k ++ trim_right v
trim_right-append [] v h = refl
trim_right-append (b ∷ k) v h =
    trim_right-IsPrintable b (k ++ v) h.0 ∙ ap (◌∷◌ b) (trim_right-append k v h.1)

kept_byte :
    (b : ℕ) (bs : Bytes) (blank : Bool)
    → (if blank then [] else b ∷ trim_right bs) ≡ b ∷ bs
    → (blank ≡ false) × (trim_right bs ≡ bs)
kept_byte b bs true e = absurd (cc)
kept_byte b bs false e = (refl, cc)

return_byte : (b : ℕ) → b == 13 ≡ true → b ≡ 13
return_byte b t = ground arith

-- A line that ends in no white space ends in no carriage return.
pub drop_cr-trim_right : (s : Bytes) → trim_right s ≡ s → drop_cr s ≡ s
unfolding drop_cr trim_right trim_left trim_left_from space_width
drop_cr-trim_right [] h = refl
drop_cr-trim_right (b ∷ []) h = elim (Bool-cases (b == 13)) [
  | inl t ↦
      let q : trim_right (13 ∷ []) ≡ 13 ∷ [] =
        subst (λ a. trim_right (a ∷ []) ≡ a ∷ []) (return_byte b t) h in
      absurd (cc)
  | inr f ↦ rw f refl
]
drop_cr-trim_right (b ∷ c ∷ bs) h =
    let (_, r) = kept_byte b (c ∷ bs) (is_empty (trim_left (b ∷ c ∷ bs))) h in
    ap (◌∷◌ b) (drop_cr-trim_right (c ∷ bs) r)

not_equals : (b : ℕ) → b ≢ b'=' → b == b'=' ≡ false
not_equals b n = ground arith

pub cut-append : (k v : Bytes) → All (λ b. b ≢ b'=') k → cut (k ++ b'=' ∷ v) ≡ some (k, v)
unfolding cut
cut-append [] v h = refl
cut-append (b ∷ k) v h = rw (not_equals b h.0, cut-append k v h.1)

-- Short lines are scanned, each without a carriage return at its end.
pub scan_lines-append :
    {E : Type 0} (e : Option E) (ls ms : List Bytes)
    → All (λ l. length l < max_scan_token_size) ls
    → scan_lines e (ls ++ ms) ≡ (map drop_cr ls ++ (scan_lines e ms).0, (scan_lines e ms).1)
unfolding scan_lines
scan_lines-append {E = E} e [] ms h = refl
scan_lines-append {E = E} none (l ∷ ls) ms h =
    rw (lt→ltb (length l) max_scan_token_size h.0, scan_lines-append {E = E} none ls ms h.1)
scan_lines-append {E = E} (some e) (l ∷ ls) ms h =
    rw (lt→ltb (length l) max_scan_token_size h.0, scan_lines-append {E = E} (some e) ls ms h.1)
