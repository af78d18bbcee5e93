-- ===== src/Server/Wire.antt =====
-- internal/server/server.go: the bytes of the replies (`writeLine`), but for the statistics.
use mini_key_value_store.Prelude.{ℕ, Bytes, List, [], ◌∷◌, ◌++◌, length}
use mini_key_value_store.Decimal.{format_uint}
use mini_key_value_store.Server.{
  bad_command, auth_required, auth_failed, auth_not_configured, ttl_too_large, value_not_integer,
  increment_overflows, value_too_large, memory_limit_exceeded, unknown_command, ErrorLine, Reply,
  pong, end_reply, stored, deleted, not_found, exists, authenticated, value_reply, gets_reply,
  number_reply, stats_reply, error_line, Counters,
}
use mini_key_value_store.Store.{Stats}

-- `writeLine`
unfoldable pub write_line : Bytes → Bytes
write_line line = line ++ 13 ∷ 10 ∷ []

abbrev pub error_text : ErrorLine → Bytes
error_text bad_command =
    b'C' ∷ b'L' ∷ b'I' ∷ b'E' ∷ b'N' ∷ b'T' ∷ b'_' ∷ b'E' ∷ b'R' ∷ b'R' ∷ b'O' ∷ b'R' ∷ 32 ∷ b'b'
    ∷ b'a' ∷ b'd' ∷ 32 ∷ b'c' ∷ b'o' ∷ b'm' ∷ b'm' ∷ b'a' ∷ b'n' ∷ b'd' ∷ []
error_text auth_required =
    b'C' ∷ b'L' ∷ b'I' ∷ b'E' ∷ b'N' ∷ b'T' ∷ b'_' ∷ b'E' ∷ b'R' ∷ b'R' ∷ b'O' ∷ b'R' ∷ 32 ∷ b'a'
    ∷ b'u' ∷ b't' ∷ b'h' ∷ 32 ∷ b'r' ∷ b'e' ∷ b'q' ∷ b'u' ∷ b'i' ∷ b'r' ∷ b'e' ∷ b'd' ∷ []
error_text auth_failed =
    b'C' ∷ b'L' ∷ b'I' ∷ b'E' ∷ b'N' ∷ b'T' ∷ b'_' ∷ b'E' ∷ b'R' ∷ b'R' ∷ b'O' ∷ b'R' ∷ 32 ∷ b'a'
    ∷ b'u' ∷ b't' ∷ b'h' ∷ 32 ∷ b'f' ∷ b'a' ∷ b'i' ∷ b'l' ∷ b'e' ∷ b'd' ∷ []
error_text auth_not_configured =
    b'C' ∷ b'L' ∷ b'I' ∷ b'E' ∷ b'N' ∷ b'T' ∷ b'_' ∷ b'E' ∷ b'R' ∷ b'R' ∷ b'O' ∷ b'R' ∷ 32 ∷ b'a'
    ∷ b'u' ∷ b't' ∷ b'h' ∷ 32 ∷ b'n' ∷ b'o' ∷ b't' ∷ 32 ∷ b'c' ∷ b'o' ∷ b'n' ∷ b'f' ∷ b'i' ∷ b'g'
    ∷ b'u' ∷ b'r' ∷ b'e' ∷ b'd' ∷ []
error_text ttl_too_large =
    b'C' ∷ b'L' ∷ b'I' ∷ b'E' ∷ b'N' ∷ b'T' ∷ b'_' ∷ b'E' ∷ b'R' ∷ b'R' ∷ b'O' ∷ b'R' ∷ 32 ∷ b'T'
    ∷ b'T' ∷ b'L' ∷ 32 ∷ b'i' ∷ b's' ∷ 32 ∷ b't' ∷ b'o' ∷ b'o' ∷ 32 ∷ b'l' ∷ b'a' ∷ b'r' ∷ b'g'
    ∷ b'e' ∷ []
error_text value_not_integer =
    b'C' ∷ b'L' ∷ b'I' ∷ b'E' ∷ b'N' ∷ b'T' ∷ b'_' ∷ b'E' ∷ b'R' ∷ b'R' ∷ b'O' ∷ b'R' ∷ 32 ∷ b'v'
    ∷ b'a' ∷ b'l' ∷ b'u' ∷ b'e' ∷ 32 ∷ b'i' ∷ b's' ∷ 32 ∷ b'n' ∷ b'o' ∷ b't' ∷ 32 ∷ b'a' ∷ b'n' ∷ 32
    ∷ b'u' ∷ b'n' ∷ b's' ∷ b'i' ∷ b'g' ∷ b'n' ∷ b'e' ∷ b'd' ∷ 32 ∷ b'i' ∷ b'n' ∷ b't' ∷ b'e' ∷ b'g'
    ∷ b'e' ∷ b'r' ∷ []
error_text increment_overflows =
    b'C' ∷ b'L' ∷ b'I' ∷ b'E' ∷ b'N' ∷ b'T' ∷ b'_' ∷ b'E' ∷ b'R' ∷ b'R' ∷ b'O' ∷ b'R' ∷ 32 ∷ b'i'
    ∷ b'n' ∷ b'c' ∷ b'r' ∷ b'e' ∷ b'm' ∷ b'e' ∷ b'n' ∷ b't' ∷ 32 ∷ b'w' ∷ b'o' ∷ b'u' ∷ b'l' ∷ b'd'
    ∷ 32 ∷ b'o' ∷ b'v' ∷ b'e' ∷ b'r' ∷ b'f' ∷ b'l' ∷ b'o' ∷ b'w' ∷ 32 ∷ b'u' ∷ b'i' ∷ b'n' ∷ b't'
    ∷ b'6' ∷ b'4' ∷ []
error_text value_too_large =
    b'S' ∷ b'E' ∷ b'R' ∷ b'V' ∷ b'E' ∷ b'R' ∷ b'_' ∷ b'E' ∷ b'R' ∷ b'R' ∷ b'O' ∷ b'R' ∷ 32 ∷ b'v'
    ∷ b'a' ∷ b'l' ∷ b'u' ∷ b'e' ∷ 32 ∷ b't' ∷ b'o' ∷ b'o' ∷ 32 ∷ b'l' ∷ b'a' ∷ b'r' ∷ b'g' ∷ b'e'
    ∷ []
error_text memory_limit_exceeded =
    b'S' ∷ b'E' ∷ b'R' ∷ b'V' ∷ b'E' ∷ b'R' ∷ b'_' ∷ b'E' ∷ b'R' ∷ b'R' ∷ b'O' ∷ b'R' ∷ 32 ∷ b'm'
    ∷ b'e' ∷ b'm' ∷ b'o' ∷ b'r' ∷ b'y' ∷ 32 ∷ b'l' ∷ b'i' ∷ b'm' ∷ b'i' ∷ b't' ∷ 32 ∷ b'e' ∷ b'x'
    ∷ b'c' ∷ b'e' ∷ b'e' ∷ b'd' ∷ b'e' ∷ b'd' ∷ []
error_text unknown_command =
    b'C' ∷ b'L' ∷ b'I' ∷ b'E' ∷ b'N' ∷ b'T' ∷ b'_' ∷ b'E' ∷ b'R' ∷ b'R' ∷ b'O' ∷ b'R' ∷ 32 ∷ b'u'
    ∷ b'n' ∷ b'k' ∷ b'n' ∷ b'o' ∷ b'w' ∷ b'n' ∷ 32 ∷ b'c' ∷ b'o' ∷ b'm' ∷ b'm' ∷ b'a' ∷ b'n' ∷ b'd'
    ∷ []

abbrev pub value_word : Bytes
value_word = b'V' ∷ b'A' ∷ b'L' ∷ b'U' ∷ b'E' ∷ []

abbrev pub end_word : Bytes
end_word = b'E' ∷ b'N' ∷ b'D' ∷ []

abbrev pub stored_word : Bytes
stored_word = b'S' ∷ b'T' ∷ b'O' ∷ b'R' ∷ b'E' ∷ b'D' ∷ []

-- The line of `fmt.Sprintf("VALUE %s %d", ...)`, and the one with the version.
abbrev pub value_header : Bytes → Bytes → Bytes
value_header key value = value_word ++ 32 ∷ key ++ 32 ∷ format_uint (length value)

abbrev pub gets_header : Bytes → Bytes → ℕ → Bytes
gets_header key value version = value_header key value ++ 32 ∷ format_uint version

-- What the server writes for a reply; `show_stats` writes the statistics.
unfoldable pub reply_bytes : (Counters → Stats → Bytes) → Reply → Bytes
unfolding write_line
reply_bytes show_stats pong = write_line (b'P' ∷ b'O' ∷ b'N' ∷ b'G' ∷ [])
reply_bytes show_stats end_reply = write_line (end_word)
reply_bytes show_stats stored = write_line (stored_word)
reply_bytes show_stats deleted = write_line (b'D' ∷ b'E' ∷ b'L' ∷ b'E' ∷ b'T' ∷ b'E' ∷ b'D' ∷ [])
reply_bytes show_stats not_found =
    write_line (b'N' ∷ b'O' ∷ b'T' ∷ b'_' ∷ b'F' ∷ b'O' ∷ b'U' ∷ b'N' ∷ b'D' ∷ [])
reply_bytes show_stats exists = write_line (b'E' ∷ b'X' ∷ b'I' ∷ b'S' ∷ b'T' ∷ b'S' ∷ [])
reply_bytes show_stats authenticated =
    write_line (
      b'A' ∷ b'U' ∷ b'T' ∷ b'H' ∷ b'E' ∷ b'N' ∷ b'T' ∷ b'I' ∷ b'C' ∷ b'A' ∷ b'T' ∷ b'E' ∷ b'D' ∷ [])
reply_bytes show_stats (value_reply key value) =
    write_line (value_header key value) ++ write_line value
reply_bytes show_stats (gets_reply key value version) =
    write_line (gets_header key value version) ++ write_line value
reply_bytes show_stats (number_reply n) = write_line (value_word ++ 32 ∷ format_uint n)
reply_bytes show_stats (stats_reply counters st) = show_stats counters st
reply_bytes show_stats (error_line e) = write_line (error_text e)

abbrev pub wire : (Counters → Stats → Bytes) → List Reply → Bytes
wire show_stats [] = []
wire show_stats (r ∷ rs) = reply_bytes show_stats r ++ wire show_stats rs
