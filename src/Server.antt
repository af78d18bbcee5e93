-- ===== src/Server.antt =====
-- internal/server/server.go: the counters and the replies of a server, and its parts. A reply stands for
-- the bytes that the server writes for it; writing is taken to succeed.
pub mod Execute
pub mod Answers
pub mod Runs
pub mod Loop
pub mod Auth
pub mod Ends
pub mod Session
pub mod Slots
pub mod Wire
pub mod Snapshot
pub mod Conn
pub mod Shutdown
pub mod Lifecycle
use mini_key_value_store.Prelude.{ℕ, ◌+◌, ◌*◌, [], Bytes}
use mini_key_value_store.Shard.{add_uint64}
use mini_key_value_store.Store.{Store, Stats}
use mini_key_value_store.Protocol.{
  Op, op_none, op_get, op_set, op_delete, op_incr, op_ping, op_auth, op_mget, op_gets, op_cas,
  op_stats,
}

-- The counters that the loop of a connection changes.
pub record Counters : Type 0 where
  pub auth_failures : ℕ
  pub client_errors : ℕ
  pub server_errors : ℕ
  pub cmd_get : ℕ
  pub cmd_set : ℕ
  pub cmd_delete : ℕ
  pub cmd_incr : ℕ
  pub cmd_mget : ℕ
  pub cmd_gets : ℕ
  pub cmd_cas : ℕ
  pub cmd_stats : ℕ
  pub cmd_auth : ℕ
  pub cmd_ping : ℕ

pub record Server : Type 0 where
  pub store : Store
  pub auth_token : Bytes
  pub counters : Counters

-- `New`, for the state of the loop.
abbrev pub new_server : Store → Server
new_server kv = record {
  store = kv;
  auth_token = [];
  counters = record {
    auth_failures = 0;
    client_errors = 0;
    server_errors = 0;
    cmd_get = 0;
    cmd_set = 0;
    cmd_delete = 0;
    cmd_incr = 0;
    cmd_mget = 0;
    cmd_gets = 0;
    cmd_cas = 0;
    cmd_stats = 0;
    cmd_auth = 0;
    cmd_ping = 0;
  };
}

-- `WithAuthToken`
abbrev pub with_auth_token : Bytes → Server → Server
with_auth_token token s = record s { auth_token = token }

-- The lines CLIENT_ERROR and SERVER_ERROR.
pub data ErrorLine : Type 0 where
  bad_command auth_required auth_failed auth_not_configured ttl_too_large : ErrorLine
  value_not_integer increment_overflows value_too_large memory_limit_exceeded unknown_command :
      ErrorLine

-- `value_reply` and `gets_reply` are a VALUE line, without and with the version, and the value.
pub data Reply : Type 0 where
  pong end_reply stored deleted not_found exists authenticated : Reply
  value_reply : Bytes → Bytes → Reply
  gets_reply : Bytes → Bytes → ℕ → Reply
  number_reply : ℕ → Reply
  stats_reply : Counters → Stats → Reply
  error_line : ErrorLine → Reply

-- `countCommand`
unfoldable pub count_command : Op → Counters → Counters
count_command op_get c = record c { cmd_get = add_uint64 c.cmd_get 1 }
count_command op_set c = record c { cmd_set = add_uint64 c.cmd_set 1 }
count_command op_delete c = record c { cmd_delete = add_uint64 c.cmd_delete 1 }
count_command op_incr c = record c { cmd_incr = add_uint64 c.cmd_incr 1 }
count_command op_mget c = record c { cmd_mget = add_uint64 c.cmd_mget 1 }
count_command op_gets c = record c { cmd_gets = add_uint64 c.cmd_gets 1 }
count_command op_cas c = record c { cmd_cas = add_uint64 c.cmd_cas 1 }
count_command op_stats c = record c { cmd_stats = add_uint64 c.cmd_stats 1 }
count_command op_ping c = record c { cmd_ping = add_uint64 c.cmd_ping 1 }
count_command op_auth c = c
count_command op_none c = c
