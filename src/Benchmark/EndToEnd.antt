-- ===== src/Benchmark/EndToEnd.antt =====
-- internal/benchmark/clients.go, internal/protocol/protocol.go and internal/server/server.go together: a
-- client that sets a key and gets it, over the bytes of the connection.
use mini_key_value_store.Prelude.{◌+◌, ◌≤◌, Bytes, length}
use mini_key_value_store.Decimal.{format_uint}
use mini_key_value_store.Store.{Store}
use mini_key_value_store.Protocol.Reader.{buffer_size}
use mini_key_value_store.Protocol.Name
use mini_key_value_store.Protocol.Requests
use mini_key_value_store.Server.{Server}

-- The line of the request fits the buffer of the parser.
abbrev pub Fits : Bytes → Bytes → Type 0
Fits key value = length key + length (format_uint (length value)) + 7 ≤ buffer_size
