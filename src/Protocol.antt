-- ===== src/Protocol.antt =====
-- internal/protocol/protocol.go: the commands of the wire protocol, and what a read can come to.
pub mod Name
pub mod Reader
pub mod Fields
pub mod Tokens
pub mod Parser
pub mod Lines
pub mod Values
pub mod Requests
pub mod Roundtrip
pub mod Consumes
pub mod Arguments
pub mod Checked
pub mod Panics
use mini_key_value_store.Prelude.{ℕ, List, [], Bytes}

pub data Op : Type 0 where
  op_none op_get op_set op_delete op_incr op_ping op_auth op_mget op_gets op_cas op_stats : Op

pub record Command : Type 0 where
  pub op : Op
  pub key : Bytes
  pub keys : List Bytes
  pub value : Bytes
  pub ttl_seconds : ℕ
  pub delta : ℕ
  pub token : Bytes
  pub cas : ℕ

-- `Command{}`
abbrev pub no_command : Command
no_command = record {
  op = op_none;
  key = [];
  keys = [];
  value = [];
  ttl_seconds = 0;
  delta = 0;
  token = [];
  cas = 0;
}

-- The number that a message of `parseUintToken` names.
pub data Number : Type 0 where
  ttl_number delta_number version_number byte_count : Number

-- The messages of `protocolError`.
pub data Message : Type 0 where
  line_needs_crlf empty_command line_too_long incomplete_value value_needs_crlf : Message
  usage : Op → Message
  keys_required invalid_key unknown_command : Message
  not_unsigned too_large : Number → Message

-- What `ReadCommand` comes to: a value, `io.EOF`, an `ErrProtocol`, or a panic.
pub data Read (A : Type 0) : Type 0 where
  done : A → Read A
  eof : Read A
  protocol_error : Message → Read A
  panics : Read A

abbrev pub then_read : {A B : Type 0} → Read A → (A → Read B) → Read B
then_read (done a) f = f a
then_read eof f = eof
then_read (protocol_error m) f = protocol_error m
then_read panics f = panics
