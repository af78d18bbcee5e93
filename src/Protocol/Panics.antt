-- ===== src/Protocol/Panics.antt =====
-- internal/protocol/protocol.go: the allocation for the value of a command.
use mini_key_value_store.Prelude.{
  ℕ, ◌+◌, ◌≤◌, ◌<◌, false, [], ◌∷◌, ◌++◌, Bytes, length, ◌≡◌, refl, ap, ◌∙◌, ltb, lt→ltb,
  Bool-cases, inl, inr,
}
use mini_key_value_store.Decimal.{format_uint}
use mini_key_value_store.Protocol.{Command, panics}
use mini_key_value_store.Protocol.Name
use mini_key_value_store.Protocol.Reader.{max_int, buffer_size, make_bytes, read_value}
use mini_key_value_store.Protocol.Parser.{
  set_arguments, with_value, set_command, op_command, fields_command, read_command,
}
use mini_key_value_store.Protocol.Lines.{join, crlf, read_command-line}
use mini_key_value_store.Protocol.Values.{
  IsKey, valid_key-IsKey, format_uint-IsToken, parse_byte_count-format_uint,
}
use mini_key_value_store.Protocol.Requests.{set, name_of-IsToken, op_of-name_of}

make_bytes-large : (m n : ℕ) → m < n → make_bytes m n ≡ false
unfolding make_bytes
make_bytes-large m n h = elim (Bool-cases (ltb max_int n)) [
  | inl e ↦ rw e refl
  | inr e ↦ rw (e, lt→ltb m n h) refl
]

with_value-large :
    (m size : ℕ) (command : Bytes → Command) (input : Bytes)
    → m < size + 2
    → with_value m size command input ≡ (panics, input)
unfolding with_value read_value
with_value-large m size command input h =
    rw (with_value, read_value, make_bytes-large m (size + 2) h) refl

-- The line of a `set` with a valid key of printable ASCII, if it fits the buffer, makes the read
-- panic as soon as the size that it announces, with the CRLF, is more than the runtime allocates,
-- though the size is one that `parseByteCount` accepts.
pub read_command-panics :
    (m size : ℕ) (key rest : Bytes)
    → IsKey key
    → size ≤ max_int
    → m < size + 2
    → length (join Name.set (key ∷ format_uint size ∷ [])) + 2 ≤ buffer_size
    → read_command m (join Name.set (key ∷ format_uint size ∷ []) ++ crlf rest) ≡ (panics, rest)
unfolding fields_command op_command set_arguments set_command
read_command-panics m size key rest k h large le =
    read_command-line m Name.set (key ∷ format_uint size ∷ []) rest (name_of-IsToken (set [] 0 []))
      (k.token, (format_uint-IsToken size, tt)) le
    ∙ ap (λ op. op_command m op (key ∷ format_uint size ∷ []) rest) (op_of-name_of (set [] 0 []))
    ∙ rw (op_command, set_arguments, valid_key-IsKey key k, parse_byte_count-format_uint size h)
        (with_value-large m size _ rest large)
