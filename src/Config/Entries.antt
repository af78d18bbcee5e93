-- ===== src/Config/Entries.antt =====
-- internal/config/config.go: reading a printed line, and the error of a line with an unknown key.
use mini_key_value_store.Prelude.{
  ℕ, false, Bytes, List, [], ◌∷◌, ◌++◌, All, ◌≡◌, ◌≢◌, returns, wrap_error, arith, refl, ap, ◌∙◌,
  if◌then◌else◌,
}
use mini_key_value_store.Protocol.Lines.{IsPrintable}
use mini_key_value_store.Config.{Config}
use mini_key_value_store.Config.Text.{trim_right, trim_space, cut, has_hash}
use mini_key_value_store.Config.Scanner.{drop_cr}
use mini_key_value_store.Config.Fields.{set_field}
use mini_key_value_store.Config.Load.{load_entry, load_line, bad_field}
use mini_key_value_store.Config.Lines.{
  IsTrimmed, trim_left-IsPrintable, trim_right-IsPrintable, trim_right-append, drop_cr-trim_right,
  cut-append,
}
use mini_key_value_store.Config.Print.{line_text}

-- A key of a line: printable, without "=", and with no "#" in front.
pub record IsKeyText (b : ℕ) (bs : Bytes) : Type 0 where
  pub printable : All IsPrintable (b ∷ bs)
  pub no_equals : All (λ a. a ≢ b'=') (b ∷ bs)
  pub no_hash : b ≢ b'#'

pub append-nil : {A : Type 0} (xs : List A) → xs ++ [] ≡ xs
append-nil [] = refl
append-nil (x ∷ xs) = ap (◌∷◌ x) (append-nil xs)

pub trim_right-printable : (k : Bytes) → All IsPrintable k → trim_right k ≡ k
trim_right-printable [] h = unfold trim_right in refl
trim_right-printable (b ∷ k) h =
    trim_right-IsPrintable b k h.0 ∙ ap (◌∷◌ b) (trim_right-printable k h.1)

trim_right-line_text :
    (k v : Bytes)
    → All IsPrintable k
    → trim_right v ≡ v
    → trim_right (line_text k v) ≡ line_text k v
trim_right-line_text k v h e =
    trim_right-append k (b'=' ∷ v) h
    ∙ ap (λ w. k ++ w) (trim_right-IsPrintable b'=' v (omega arith, omega arith) ∙ ap (◌∷◌ b'=') e)

no_comment : (b : ℕ) (bs : Bytes) → b ≢ b'#' → has_hash (b ∷ bs) ≡ false
no_comment b bs n = ground arith

module _ (b : ℕ) (bs v : Bytes) (h : IsKeyText b bs) (t : IsTrimmed v) where
  abbrev line : Bytes
  line = line_text (b ∷ bs) v

  trimmed_line : trim_space (drop_cr line) ≡ line
  unfolding trim_space
  trimmed_line =
      let r = trim_right-line_text (b ∷ bs) v h.printable t.right in
      ap trim_space (drop_cr-trim_right line r)
      ∙ ap trim_right (trim_left-IsPrintable b (bs ++ b'=' ∷ v) h.printable.0)
      ∙ r

  trimmed_key : trim_space (b ∷ bs) ≡ b ∷ bs
  unfolding trim_space
  trimmed_key =
      ap trim_right (trim_left-IsPrintable b bs h.printable.0)
      ∙ trim_right-printable (b ∷ bs) h.printable

  trimmed_value : trim_space v ≡ v
  unfolding trim_space
  trimmed_value = ap trim_right t.left ∙ t.right

  -- A line with a key sets the field of the key.
  pub load_line-line_text :
      {E : Type 0} (cfg : Config) (n : ℕ)
      → load_line {E = E} cfg n (trim_space (drop_cr line))
        ≡ wrap_error (bad_field n) (set_field cfg (b ∷ bs) v)
  unfolding load_line load_entry
  load_line-line_text cfg n =
      ap (load_line cfg n) trimmed_line
      ∙ ap (λ t. if t then returns cfg else load_entry cfg n (cut line))
          (no_comment b (bs ++ b'=' ∷ v) h.no_hash)
      ∙ ap (load_entry cfg n) (cut-append (b ∷ bs) v h.no_equals)
      ∙ ap (λ k. wrap_error (bad_field n) (set_field cfg k (trim_space v))) trimmed_key
      ∙ ap (λ w. wrap_error (bad_field n) (set_field cfg (b ∷ bs) w)) trimmed_value
