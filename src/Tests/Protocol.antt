-- ===== src/Tests/Protocol.antt =====
-- Examples of the protocol parser, and runs of it.
use mini_key_value_store.Prelude.{
  ℕ_discrete, bytes_discrete, ◌+◌, ◌≤◌, ◌^◌, [], ◌∷◌, ◌++◌, length, ◌≡◌, refl, arith,
}
use mini_key_value_store.Decimal.{format_uint}
use mini_key_value_store.Protocol.{op_incr, done, panics}
use mini_key_value_store.Protocol.Name
use mini_key_value_store.Protocol.Reader.{max_int, buffer_size}
use mini_key_value_store.Protocol.Fields.{fields, space_width, fields_from, to_lower, lower_from}
use mini_key_value_store.Protocol.Parser.{op_of, find_op, read_command}
use mini_key_value_store.Protocol.Lines.{join, crlf}
use mini_key_value_store.Protocol.Values.{IsKey}
use mini_key_value_store.Protocol.Requests.{Request, get, set, command_of, print}
use mini_key_value_store.Protocol.Roundtrip.{read_command-print}
use mini_key_value_store.Protocol.Checked.{IsChecked, read_command-IsChecked}
use mini_key_value_store.Protocol.Panics.{read_command-panics}
use mini_key_value_store.Tests.{key_a, text}

-- A no-break space (U+00A0) parts two fields; `İNCR` is `incr`.
no_break_space : fields (b'a' ∷ 194 ∷ 160 ∷ b'b' ∷ []) ≡ (b'a' ∷ []) ∷ (b'b' ∷ []) ∷ []
unfolding fields fields_from space_width
no_break_space = refl

dotted_i : op_of (196 ∷ 176 ∷ b'N' ∷ b'C' ∷ b'R' ∷ []) ≡ op_incr
unfolding op_of find_op to_lower lower_from bytes_discrete ℕ_discrete
dotted_i = refl

pub key_a-IsKey : IsKey key_a
key_a-IsKey = record {
  token = (omega arith, ((omega arith, omega arith), tt));
  short = omega arith;
}

abbrev get_a : Request
get_a = get key_a

abbrev set_a : Request
set_a = set key_a 60 text

set_a_fits :
    length (join Name.set (key_a ∷ format_uint 60 ∷ format_uint (length text) ∷ [])) + 2
    ≤ buffer_size
unfolding format_uint
set_a_fits = omega arith

read_command-print_example :
    read_command 1000 (print set_a (b'p' ∷ [])) ≡ (done (command_of set_a), b'p' ∷ [])
read_command-print_example =
    read_command-print 1000 (b'p' ∷ []) set_a (key_a-IsKey, omega arith, (omega arith, omega arith))
      set_a_fits

get_a_read : read_command 1000 (print get_a []) ≡ (done (command_of get_a), [])
get_a_read = read_command-print 1000 [] get_a key_a-IsKey (omega arith)

read_command-IsChecked_example : IsChecked (command_of get_a)
read_command-IsChecked_example =
    read_command-IsChecked 1000 (print get_a []) [] (command_of get_a) get_a_read

huge_fits : length (join Name.set (key_a ∷ format_uint max_int ∷ [])) + 2 ≤ buffer_size
unfolding format_uint
huge_fits = omega arith

read_command-panics_example :
    read_command (2 ^ 48) (join Name.set (key_a ∷ format_uint max_int ∷ []) ++ crlf [])
    ≡ (panics, [])
read_command-panics_example =
    read_command-panics (2 ^ 48) max_int key_a [] key_a-IsKey (omega arith) (omega arith) huge_fits
