-- ===== src/Benchmark/Client.antt =====
-- internal/benchmark/clients.go: the client of this server, and its reads of replies. A read takes the
-- bytes that arrive and returns those that are left.
use mini_key_value_store.Prelude.{
  ℕ, Bool, true, false, ◌&&◌, Option, none, some, List, [], ◌∷◌, ◌++◌, Bytes, bytes_discrete, ite,
  ◌==◌, if◌then◌else◌, length, ℤ, pos, negsuc, Outcome, returns, fails, and_then, wrap_error,
}
use mini_key_value_store.Decimal.{format_uint}
use mini_key_value_store.Config.Integer.{IntegerError, atoi}
use mini_key_value_store.Protocol.{Read, done, eof, protocol_error, panics}
use mini_key_value_store.Protocol.Name
use mini_key_value_store.Protocol.Reader.{read_value}
use mini_key_value_store.Protocol.Fields.{fields}
use mini_key_value_store.Protocol.Parser.{chop_crlf}
use mini_key_value_store.Server.Wire.{value_word, end_word, stored_word}

-- What `Set` and `Get` of `miniKVClient` write.
abbrev pub set_request : Bytes → Bytes → Bytes
set_request key value =
    Name.set ++ 32 ∷ (key ++ 32 ∷ (format_uint (length value) ++ 13 ∷ 10 ∷ (value ++ 13 ∷ 10 ∷ [])))

abbrev pub get_request : Bytes → Bytes
get_request key = Name.get ++ 32 ∷ (key ++ 13 ∷ 10 ∷ [])

pub data ClientError : Type 0 where
  stream_ended no_crlf bad_value panicked : ClientError
  bad_reply bad_header bad_terminator : Bytes → ClientError
  bad_size : IntegerError → ClientError
  negative_size : ClientError

-- `reader.ReadString('\n')`: the bytes up to and with the newline, and those that are left.
abbrev put_first : ℕ → Option (Bytes × Bytes) → Option (Bytes × Bytes)
put_first b none = none
put_first b (some (line, rest)) = some (b ∷ line, rest)

unfoldable pub read_string : Bytes → Option (Bytes × Bytes)
read_string [] = none
read_string (b ∷ bs) =
    let rest = read_string bs in if b == 10 then some (b ∷ [], bs) else put_first b rest

-- `readCRLFLine`
abbrev without_crlf : Bytes → Option Bytes → Outcome ClientError (Bytes × Bytes)
without_crlf rest none = fails no_crlf
without_crlf rest (some line) = returns (line, rest)

abbrev pub line_of : Option (Bytes × Bytes) → Outcome ClientError (Bytes × Bytes)
line_of none = fails stream_ended
line_of (some (line, rest)) = without_crlf rest (chop_crlf line)

unfoldable pub read_crlf_line : Bytes → Outcome ClientError (Bytes × Bytes)
unfolding read_string
read_crlf_line input = line_of (read_string input)

abbrev pub same : Bytes → Bytes → Bool
same a b = ite (bytes_discrete a b) true false

-- The end of `Set`.
unfoldable pub read_stored : Bytes → Outcome ClientError Bytes
unfolding read_crlf_line
read_stored input =
    and_then (read_crlf_line input)
      (λ r. if same r.0 stored_word then returns r.1 else fails (bad_reply r.0))

-- `readSizedValue`: the same reads and tests as the parser's for a value.
abbrev pub sized_value : Read Bytes × Bytes → Outcome ClientError (Bytes × Bytes)
sized_value (done value, rest) = returns (value, rest)
sized_value (eof, rest) = fails stream_ended
sized_value (protocol_error m, rest) = fails bad_value
sized_value (panics, rest) = fails panicked

abbrev pub with_end : Bytes → Bytes × Bytes → Outcome ClientError (Option Bytes × Bytes)
with_end value (line, rest) =
    if same line end_word then returns (some value, rest) else fails (bad_terminator line)

abbrev pub read_body : ℕ → Bytes → ℤ → Outcome ClientError (Option Bytes × Bytes)
read_body max_alloc rest (negsuc n) = fails negative_size
read_body max_alloc rest (pos n) =
    and_then (sized_value (read_value max_alloc n rest))
      (λ v. and_then (read_crlf_line v.1) (with_end v.0))

abbrev pub read_header :
    ℕ → Bytes → Bytes → List Bytes → Bytes → Outcome ClientError (Option Bytes × Bytes)
read_header max_alloc key line (word ∷ name ∷ size ∷ []) rest =
    if same word value_word && same name key
    then and_then (wrap_error bad_size (atoi size)) (read_body max_alloc rest)
    else fails (bad_header line)
read_header max_alloc key line _ rest = fails (bad_header line)

-- `readMiniKVGet`
unfoldable pub read_minikv_get : ℕ → Bytes → Bytes → Outcome ClientError (Option Bytes × Bytes)
unfolding read_crlf_line
read_minikv_get max_alloc key input = and_then (read_crlf_line input) (λ r.
    if same r.0 end_word
    then returns (none, r.1)
    else read_header max_alloc key r.0 (fields r.0) r.1)
