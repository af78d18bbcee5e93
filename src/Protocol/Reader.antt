-- ===== src/Protocol/Reader.antt =====
-- internal/protocol/protocol.go, reading: `bufio.Reader.ReadSlice` with the default buffer, `io.ReadFull`
-- and `make`. The reader's state is the input that is left, up to the end of the stream.
use mini_key_value_store.Prelude.{
  ℕ, zero, suc, ◌+◌, ◌-◌, ◌^◌, Bool, true, false, ◌&&◌, Option, none, some, [], ◌∷◌, Bytes, ltb,
  ◌==◌, if◌then◌else◌,
}
use mini_key_value_store.Protocol.{
  line_too_long, incomplete_value, value_needs_crlf, Read, done, eof, protocol_error, panics,
}

-- The buffer of `bufio.NewReader`.
abbrev pub buffer_size : ℕ
buffer_size = 4096

-- `ReadSlice('\n')` with room for `room` more bytes: the bytes up to and with the delimiter, and
-- those that are left. A line that fills the buffer is an error, and so is one that the stream ends.
unfoldable pub read_slice : ℕ → Bytes → Read Bytes × Bytes
read_slice zero input = (protocol_error line_too_long, input)
read_slice (suc room) [] = (eof, [])
read_slice (suc room) (b ∷ input) = elim (b == 10) [
  | true ↦ (done (b ∷ []), input)
  | false ↦
      let (line, rest) = read_slice room input in
      (
        elim line [
          | done bs ↦ done (b ∷ bs)
          | eof ↦ eof
          | protocol_error m ↦ protocol_error m
          | panics ↦ panics
        ],
        rest,
      )
]

-- `readLineSlice`
unfoldable pub read_line_slice : Bytes → Read Bytes × Bytes
unfolding read_slice
read_line_slice input = read_slice buffer_size input

-- `io.ReadFull` into `n` bytes: those bytes, or `none` if the stream ends before.
unfoldable pub read_full : ℕ → Bytes → Option Bytes × Bytes
read_full zero input = (some [], input)
read_full (suc n) [] = (none, [])
read_full (suc n) (b ∷ input) =
    let (value, rest) = read_full n input in
    (elim value [ none ↦ none | some bs ↦ some (b ∷ bs) ], rest)

abbrev pub max_int : ℕ
max_int = 2 ^ 63 - 1

-- Whether `make([]byte, n)` returns: `n` wrapped past the last int is negative, and the runtime
-- allocates up to `max_alloc` bytes.
unfoldable pub make_bytes : ℕ → ℕ → Bool
make_bytes max_alloc n = if ltb max_int n then false else if ltb max_alloc n then false else true

-- `value[size] == '\r' && value[size+1] == '\n'`, for what is left of a block after the value
abbrev pub is_crlf : Bytes → Bool
is_crlf (a ∷ b ∷ []) = a == 13 && b == 10
is_crlf _ = false

-- The value of `set` and `cas`: `size` bytes and a CRLF.
unfoldable pub split_value : ℕ → Bytes → Option Bytes
split_value zero bs = if is_crlf bs then some [] else none
split_value (suc n) [] = none
split_value (suc n) (b ∷ bs) = elim (split_value n bs) [ none ↦ none | some v ↦ some (b ∷ v) ]

unfoldable pub read_value : ℕ → ℕ → Bytes → Read Bytes × Bytes
unfolding make_bytes read_full split_value
read_value max_alloc size input = elim (make_bytes max_alloc (size + 2)) [
  | false ↦ (panics, input)
  | true ↦
      let (block, rest) = read_full (size + 2) input in
      (
        elim block [
          | none ↦ protocol_error incomplete_value
          | some bs ↦ elim (split_value size bs) [
            | none ↦ protocol_error value_needs_crlf
            | some value ↦ done value
          ]
        ],
        rest,
      )
]
