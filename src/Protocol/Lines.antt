-- ===== src/Protocol/Lines.antt =====
-- internal/protocol/protocol.go: reading a command line that was printed.
use mini_key_value_store.Prelude.{
  ℕ, zero, suc, ◌+◌, ◌≤◌, false, some, List, [], ◌∷◌, ◌++◌, Bytes, length, All, ◌≡◌, refl, ap, sym,
  ◌∙◌, arith, ◌==◌,
}
use mini_key_value_store.Protocol.{done}
use mini_key_value_store.Protocol.Reader.{read_slice, read_line_slice, buffer_size}
use mini_key_value_store.Protocol.Fields.{space_width, fields_from, fields}
use mini_key_value_store.Protocol.Parser.{fields_command, chop_crlf, line_read, read_command}

-- A printable ASCII byte that is no space.
abbrev pub IsPrintable : ℕ → Type 0
IsPrintable b = (33 ≤ b) × (b ≤ 126)

-- Some printable bytes.
abbrev pub IsToken : Bytes → Type 0
IsToken t = (1 ≤ length t) × All IsPrintable t

-- Tokens with a space between them, and the line of them.
abbrev pub join : Bytes → List Bytes → Bytes
join t [] = t
join t (u ∷ us) = t ++ 32 ∷ join u us

abbrev pub crlf : Bytes → Bytes
crlf rest = 13 ∷ 10 ∷ rest

snoc-append : (xs : Bytes) (b : ℕ) (ys : Bytes) → (xs ++ b ∷ []) ++ ys ≡ xs ++ b ∷ ys
snoc-append [] b ys = refl
snoc-append (x ∷ xs) b ys = ap (◌∷◌ x) (snoc-append xs b ys)

pub append-nil : (xs : Bytes) → xs ++ [] ≡ xs
append-nil [] = refl
append-nil (x ∷ xs) = ap (◌∷◌ x) (append-nil xs)

pub space_width-IsPrintable : (b : ℕ) (bs : Bytes) → IsPrintable b → space_width (b ∷ bs) ≡ 0
unfolding space_width
space_width-IsPrintable b bs h = ground arith

fields_from-token :
    (field t bs : Bytes)
    → All IsPrintable t
    → fields_from 0 field (t ++ bs) ≡ fields_from 0 (field ++ t) bs
unfolding fields_from
fields_from-token field [] bs h = ap (λ f. fields_from 0 f bs) (sym (append-nil field))
fields_from-token field (b ∷ t) bs h =
    rw (fields_from, space_width-IsPrintable b (t ++ bs) h.0)
      (fields_from-token (field ++ b ∷ []) t bs h.1
        ∙ ap (λ f. fields_from 0 f bs) (snoc-append field b t))

-- The fields of joined tokens are the tokens.
pub fields-join :
    (t : Bytes) (ts : List Bytes) → IsToken t → All IsToken ts → fields (join t ts) ≡ t ∷ ts
unfolding fields fields_from space_width
fields-join [] ts h hs = absurd (omega (arith, h.0))
fields-join (b ∷ t) [] h hs =
    ap (fields_from 0 []) (sym (append-nil (b ∷ t))) ∙ fields_from-token [] (b ∷ t) [] h.1 ∙ refl
fields-join (b ∷ t) (u ∷ us) h hs =
    fields_from-token [] (b ∷ t) (32 ∷ join u us) h.1
    ∙ ap (◌∷◌ (b ∷ t)) (fields-join u us hs.0 hs.1)

read_slice-line :
    (n : ℕ) (line rest : Bytes)
    → All (λ b. (b == 10) ≡ false) line
    → length line + 2 ≤ n
    → read_slice n (line ++ crlf rest) ≡ (done (line ++ crlf []), rest)
unfolding read_slice
read_slice-line zero line rest h le = absurd (omega arith)
read_slice-line (suc zero) [] rest h le = absurd (omega arith)
read_slice-line (suc (suc n)) [] rest h le = refl
read_slice-line (suc n) (b ∷ line) rest h le =
    rw (read_slice, h.0, read_slice-line n line rest h.1 (omega arith)) refl

pub chop_crlf-line : (line : Bytes) → chop_crlf (line ++ crlf []) ≡ some line
unfolding chop_crlf
chop_crlf-line [] = refl
chop_crlf-line (a ∷ []) = refl
chop_crlf-line (a ∷ b ∷ []) = refl
chop_crlf-line (a ∷ b ∷ c ∷ line) = rw (chop_crlf, chop_crlf-line (b ∷ c ∷ line)) refl

not_newline : (t : Bytes) → All IsPrintable t → All (λ b. (b == 10) ≡ false) t
not_newline [] h = tt
not_newline (b ∷ t) h = (ground arith, not_newline t h.1)

All-append : (P : ℕ → Type 0) (xs ys : Bytes) → All P xs → All P ys → All P (xs ++ ys)
All-append P [] ys h k = k
All-append P (x ∷ xs) ys h k = (h.0, All-append P xs ys h.1 k)

pub join-not_newline :
    (t : Bytes) (ts : List Bytes)
    → IsToken t
    → All IsToken ts
    → All (λ b. (b == 10) ≡ false) (join t ts)
join-not_newline t [] h hs = not_newline t h.1
join-not_newline t (u ∷ us) h hs =
    All-append (λ b. (b == 10) ≡ false) t (32 ∷ join u us) (not_newline t h.1)
      (refl, join-not_newline u us hs.0 hs.1)

-- Reading a printed line runs the command of its tokens on what follows the line, if the line
-- fits the buffer.
pub read_command-line :
    (max_alloc : ℕ) (t : Bytes) (ts : List Bytes) (rest : Bytes)
    → IsToken t
    → All IsToken ts
    → length (join t ts) + 2 ≤ buffer_size
    → read_command max_alloc (join t ts ++ crlf rest) ≡ fields_command max_alloc (t ∷ ts) rest
unfolding read_command read_line_slice line_read
read_command-line max_alloc t ts rest h hs le =
    rw
      (
        read_command,
        read_slice-line buffer_size (join t ts) rest (join-not_newline t ts h hs) le,
        line_read,
        chop_crlf-line (join t ts),
        fields-join t ts h hs,
      )
      refl
