-- ===== src/Protocol/Roundtrip.antt =====
-- internal/protocol/protocol.go: reading a request that was printed.
use mini_key_value_store.Prelude.{ℕ, ◌+◌, ◌≤◌, ◌++◌, Bytes, length, ◌≡◌, refl, ap, ◌∙◌, arith}
use mini_key_value_store.Protocol.{
  op_set, op_cas, Command, done, ttl_number, delta_number, version_number,
}
use mini_key_value_store.Protocol.Reader.{buffer_size}
use mini_key_value_store.Protocol.Parser.{
  set_arguments, cas_arguments, line_command, with_value, set_command, cas_command, op_command,
  fields_command, read_command,
}
use mini_key_value_store.Protocol.Lines.{join, crlf, read_command-line}
use mini_key_value_store.Protocol.Values.{
  valid_key-IsKey, keys_from_fields-IsKey, parse_uint_token-format_uint,
  parse_byte_count-format_uint, read_value-crlf,
}
use mini_key_value_store.Protocol.Requests.{
  Request, ping, stats, auth, get, delete, incr, mget, gets, set, cas, command_of, name_of,
  arguments_of, body, print, IsValue, IsRequest, name_of-IsToken, arguments_of-IsToken,
  op_of-name_of,
}

module _ (m : ℕ) (rest : Bytes) where
  pub with_value-crlf :
      (value : Bytes) (command : Bytes → Command)
      → IsValue m value
      → with_value m (length value) command (value ++ crlf rest) ≡ (done (command value), rest)
  unfolding with_value
  with_value-crlf value command h = rw (with_value, read_value-crlf m value rest h.0 h.1) refl

  set_command-print :
      (key value : Bytes) (ttl : ℕ)
      → IsRequest m (set key ttl value)
      → op_command m op_set (arguments_of (set key ttl value)) (value ++ crlf rest)
        ≡ (done (command_of (set key ttl value)), rest)
  unfolding op_command set_arguments set_command
  set_command-print key value ttl h =
      rw
        (
          op_command,
          set_arguments,
          valid_key-IsKey key h.0,
          parse_uint_token-format_uint ttl ttl_number h.1,
          parse_byte_count-format_uint (length value) (omega (arith, h.2.1)),
        )
        (with_value-crlf value _ h.2)

  cas_command-print :
      (key value : Bytes) (ttl version : ℕ)
      → IsRequest m (cas key ttl version value)
      → op_command m op_cas (arguments_of (cas key ttl version value)) (value ++ crlf rest)
        ≡ (done (command_of (cas key ttl version value)), rest)
  unfolding op_command cas_arguments cas_command
  cas_command-print key value ttl version h =
      rw
        (
          op_command,
          cas_arguments,
          valid_key-IsKey key h.0,
          parse_uint_token-format_uint ttl ttl_number h.1,
          parse_uint_token-format_uint version version_number h.2,
          parse_byte_count-format_uint (length value) (omega (arith, h.3.1)),
        )
        (with_value-crlf value _ h.3)

  op_command-print :
      (r : Request)
      → IsRequest m r
      → op_command m (command_of r).op (arguments_of r) (body r rest) ≡ (done (command_of r), rest)
  unfolding op_command line_command
  op_command-print ping h = refl
  op_command-print stats h = refl
  op_command-print (auth token) h = rw (op_command, line_command, valid_key-IsKey token h) refl
  op_command-print (get key) h = rw (op_command, line_command, valid_key-IsKey key h) refl
  op_command-print (delete key) h = rw (op_command, line_command, valid_key-IsKey key h) refl
  op_command-print (incr key n) h =
      rw
        (
          op_command,
          line_command,
          valid_key-IsKey key h.0,
          parse_uint_token-format_uint n delta_number h.1,
        )
        refl
  op_command-print (mget key keys) h =
      rw (op_command, line_command, keys_from_fields-IsKey key keys h.0 h.1) refl
  op_command-print (gets key keys) h =
      rw (op_command, line_command, keys_from_fields-IsKey key keys h.0 h.1) refl
  op_command-print (set key ttl value) h = set_command-print key value ttl h
  op_command-print (cas key ttl version value) h = cas_command-print key value ttl version h

  -- A request within the limits of the protocol, whose keys and token are of printable ASCII
  -- without the space, and whose line fits the buffer, printed in the wire format with anything
  -- after it, is read as the command that it asks for, and exactly what follows it is left.
  pub read_command-print :
      (r : Request)
      → IsRequest m r
      → length (join (name_of r) (arguments_of r)) + 2 ≤ buffer_size
      → read_command m (print r rest) ≡ (done (command_of r), rest)
  unfolding fields_command
  read_command-print r h le =
      read_command-line m (name_of r) (arguments_of r) (body r rest) (name_of-IsToken r)
        (arguments_of-IsToken m r h) le
      ∙ ap (λ op. op_command m op (arguments_of r) (body r rest)) (op_of-name_of r)
      ∙ op_command-print r h
