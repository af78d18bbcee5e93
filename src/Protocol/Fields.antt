-- ===== src/Protocol/Fields.antt =====
-- `strings.Fields` and `strings.ToLower`, as internal/protocol/protocol.go uses them on the UTF-8 bytes of a line. A
-- white space starts with a byte that is never inside another character, so the bytes can be
-- read one by one.
use mini_key_value_store.Prelude.{
  ℕ, zero, suc, ◌+◌, Bool, ◌&&◌, ◌||◌, List, [], ◌∷◌, ◌++◌, Bytes, ltb, leb, ◌==◌, if◌then◌else◌,
}

-- The second byte, and the third.
abbrev second : Bytes → ℕ
second (_ ∷ b ∷ _) = b
second _ = 0

abbrev third : Bytes → ℕ
third (_ ∷ _ ∷ b ∷ _) = b
third _ = 0

abbrev pub is_ascii_space : ℕ → Bool
is_ascii_space b = b == 32 || (leb 9 b && leb b 13)

-- The number of bytes of the white space (`unicode.IsSpace`) at the front; 0 if there is none.
-- The first byte is 194 for U+0085 and U+00A0, 225 for U+1680, 226 for U+2000 to U+205F, 227 for U+3000.
unfoldable pub space_width : Bytes → ℕ
space_width [] = 0
space_width (b ∷ bs) =
    let n = second (b ∷ bs) in
    let m = third (b ∷ bs) in
    if ltb b 128
    then (if is_ascii_space b then 1 else 0)
    else if b == 194
    then (if n == 133 || n == 160 then 2 else 0)
    else if b == 225
    then (if n == 154 && m == 128 then 3 else 0)
    else if b == 226 && n == 128
    then (if (leb 128 m && leb m 138) || (m == 168 || (m == 169 || m == 175)) then 3 else 0)
    else if b == 226 && n == 129
    then (if m == 159 then 3 else 0)
    else if b == 227
    then (if n == 128 && m == 128 then 3 else 0)
    else 0

-- A field that is not empty.
abbrev pub emit : Bytes → List Bytes → List Bytes
emit [] fields = fields
emit (b ∷ bs) fields = (b ∷ bs) ∷ fields

-- `field` holds the bytes of the field so far, and `skip` counts the bytes of a white space to pass.
unfoldable pub fields_from : ℕ → Bytes → Bytes → List Bytes
fields_from skip field [] = emit field []
fields_from (suc skip) field (b ∷ bs) = fields_from skip field bs
fields_from zero field (b ∷ bs) = elim (space_width (b ∷ bs)) [
  | zero ↦ fields_from 0 (field ++ b ∷ []) bs
  | suc more ↦ emit field (fields_from more [] bs)
]

unfoldable pub fields : Bytes → List Bytes
unfolding fields_from space_width
fields line = fields_from 0 [] line

-- The lower case of the character at the front, with the further bytes that it takes. Of the
-- letters outside ASCII only U+0130 and U+212A have a lower case in ASCII, so no other matters for
-- a comparison with a command.
unfoldable pub lower_head : ℕ → Bytes → ℕ × ℕ
lower_head b bs =
    if leb 65 b && leb b 90
    then (b + 32, 0)
    else if b == 196 && second (b ∷ bs) == 176
    then (105, 1)
    else if b == 226 && (second (b ∷ bs) == 132 && third (b ∷ bs) == 170)
    then (107, 2)
    else (b, 0)

unfoldable pub lower_from : ℕ → Bytes → Bytes
unfolding lower_head
lower_from skip [] = []
lower_from (suc skip) (b ∷ bs) = lower_from skip bs
lower_from zero (b ∷ bs) = let (c, more) = lower_head b bs in c ∷ lower_from more bs

unfoldable pub to_lower : Bytes → Bytes
unfolding lower_from
to_lower s = lower_from 0 s
