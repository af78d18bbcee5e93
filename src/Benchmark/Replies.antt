-- ===== src/Benchmark/Replies.antt =====
-- internal/benchmark/clients.go: reading what the server writes.
use mini_key_value_store.Prelude.{
  ℕ, ◌+◌, ◌≤◌, true, false, none, some, [], ◌∷◌, ◌++◌, Bytes, bytes_discrete, All, ◌==◌,
  if◌then◌else◌, if_pos, if_neg, length, pos, returns, fails, and_then, wrap_error, ◌≡◌, ◌≢◌, refl,
  ap, ◌∙◌, arith, ◌&&◌,
}
use mini_key_value_store.Decimal.{format_uint}
use mini_key_value_store.Config.Integer.{atoi}
use mini_key_value_store.Config.Lines.{append-append}
use mini_key_value_store.Config.Numbers.{atoi-format_uint}
use mini_key_value_store.Protocol.Reader.{max_int}
use mini_key_value_store.Protocol.Fields.{fields}
use mini_key_value_store.Protocol.Parser.{chop_crlf}
use mini_key_value_store.Protocol.Lines.{
  IsToken, crlf, fields-join, chop_crlf-line, join-not_newline,
}
use mini_key_value_store.Protocol.Values.{IsKey, format_uint-IsToken, read_value-crlf}
use mini_key_value_store.Server.{Counters, stored, value_reply, end_reply}
use mini_key_value_store.Store.{Stats}
use mini_key_value_store.Server.Wire.{
  value_word, end_word, stored_word, value_header, write_line, reply_bytes, wire,
}
use mini_key_value_store.Benchmark.Client.{
  read_string, line_of, read_crlf_line, same, read_stored, sized_value, with_end, read_body,
  read_header, read_minikv_get, bad_size, bad_header, bad_reply, bad_terminator,
}

read_string-line :
    (line rest : Bytes)
    → All (λ b. (b == 10) ≡ false) line
    → read_string (line ++ crlf rest) ≡ some (line ++ crlf [], rest)
unfolding read_string
read_string-line [] rest h = refl
read_string-line (b ∷ line) rest h = rw (h.0, read_string-line line rest h.1) refl

read_crlf_line-line :
    (line rest : Bytes)
    → All (λ b. (b == 10) ≡ false) line
    → read_crlf_line (line ++ crlf rest) ≡ returns (line, rest)
unfolding read_crlf_line
read_crlf_line-line line rest h =
    ap line_of (read_string-line line rest h) ∙ after (chop_crlf-line line)
  where
    after :
        chop_crlf (line ++ crlf []) ≡ some line
        → line_of (some (line ++ crlf [], rest)) ≡ returns (line, rest)
    after e = rw e refl

same_refl : (a : Bytes) → same a a ≡ true
same_refl a = if_pos (bytes_discrete a a) refl true false

module _ (show_stats : Counters → Stats → Bytes) (more : Bytes) where
  pub read_stored-wire : read_stored (wire show_stats (stored ∷ []) ++ more) ≡ returns more
  unfolding read_stored reply_bytes write_line
  read_stored-wire =
      ap
        (λ o. and_then o (λ r. if same r.0 stored_word then returns r.1 else fails (bad_reply r.0)))
        (read_crlf_line-line stored_word more (refl, (refl, (refl, (refl, (refl, (refl, tt)))))))
      ∙ ap (λ t. if t then returns more else fails (bad_reply stored_word)) (same_refl stored_word)

  module _ (max_alloc : ℕ) (key value : Bytes) (k : IsKey key) (room : length value + 2 ≤ max_alloc)
      (int : length value + 2 ≤ max_int) where
    value_wire :
        wire show_stats (value_reply key value ∷ end_reply ∷ []) ++ more
        ≡ value_header key value ++ crlf (value ++ crlf (end_word ++ crlf more))
    unfolding reply_bytes write_line
    value_wire =
        let header = write_line (value_header key value) in
        let ending = write_line end_word ++ [] in
        append-append (header ++ write_line value) ending more
        ∙ append-append header (write_line value) (ending ++ more)
        ∙ append-append (value_header key value) (crlf []) (write_line value ++ (ending ++ more))
        ∙ ap (λ r. value_header key value ++ crlf r)
            (append-append value (crlf []) (ending ++ more))

    header_tokens : All IsToken (key ∷ format_uint (length value) ∷ [])
    header_tokens = (k.token, (format_uint-IsToken (length value), tt))

    value_word-IsToken : IsToken value_word
    value_word-IsToken = omega arith

    body_read :
        read_body max_alloc (value ++ crlf (end_word ++ crlf more)) (pos (length value))
        ≡ returns (some value, more)
    body_read =
        ap (λ v. and_then (sized_value v) (λ v. and_then (read_crlf_line v.1) (with_end v.0)))
          (read_value-crlf max_alloc value (end_word ++ crlf more) room int)
        ∙ ap (λ o. and_then o (with_end value))
            (read_crlf_line-line end_word more (refl, (refl, (refl, tt))))
        ∙ ap (λ t. if t then returns (some value, more) else fails (bad_terminator end_word))
            (same_refl end_word)

    not_end : value_header key value ≢ end_word
    not_end e = absurd (cc)

    pub read_minikv_get-wire :
        read_minikv_get max_alloc key
          (wire show_stats (value_reply key value ∷ end_reply ∷ []) ++ more)
        ≡ returns (some value, more)
    unfolding read_minikv_get
    read_minikv_get-wire =
        let line = value_header key value in
        let rest = value ++ crlf (end_word ++ crlf more) in
        ap (read_minikv_get max_alloc key) value_wire
        ∙ ap
            (λ o. and_then o (λ r.
              if same r.0 end_word
              then returns (none, r.1)
              else read_header max_alloc key r.0 (fields r.0) r.1))
            (read_crlf_line-line line rest (
              join-not_newline value_word (key ∷ format_uint (length value) ∷ []) value_word-IsToken
                header_tokens))
        ∙ ap
            (λ t.
              if t then returns (none, rest) else read_header max_alloc key line (fields line) rest)
            (if_neg (bytes_discrete line end_word) not_end true false)
        ∙ ap (λ fs. read_header max_alloc key line fs rest)
            (fields-join value_word (key ∷ format_uint (length value) ∷ []) value_word-IsToken
              header_tokens)
        ∙ ap
            (λ t.
              if t
              then and_then (wrap_error bad_size (atoi (format_uint (length value))))
                  (read_body max_alloc rest)
              else fails (bad_header line))
            (ap (λ t. t && same key key) (same_refl value_word) ∙ same_refl key)
        ∙ ap (λ o. and_then (wrap_error bad_size o) (read_body max_alloc rest))
            (atoi-format_uint (length value) (omega (arith, int)))
        ∙ body_read
