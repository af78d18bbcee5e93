-- ===== src/Tests/Connections.antt =====
-- Examples of the loop of a connection, of a shutdown, and of a client that talks to the server.
use mini_key_value_store.Prelude.{◌+◌, ◌*◌, [], Bytes, Option, some, none, ◌≡◌, pos}
use mini_key_value_store.Table
use mini_key_value_store.Store as Stores
use mini_key_value_store.Store.{Store, Stats}
use mini_key_value_store.Item.{StoreError}
use mini_key_value_store.Shard.Methods
use mini_key_value_store.Store.Config.{new}
use mini_key_value_store.Protocol.Requests.{set, auth, print}
use mini_key_value_store.Server.{Counters, Server}
use mini_key_value_store.Server.Execute.{second}
use mini_key_value_store.Server.Loop.{serve}
use mini_key_value_store.Server.Conn.{closed, deadline, serve_conn, serve_conn-serve}
use mini_key_value_store.Tests.{small, key_a, text, nineteen}
use mini_key_value_store.Tests.Server.{guarded}

abbrev session : Bytes
session = print (auth text) (print (set key_a 60 text) [])

serve_conn-serve_example :
    (serve_conn closed 1000 (λ turn i. turn + i) guarded session
      ≡ serve 1000 (λ turn i. turn + i) guarded session)
    × (serve_conn deadline 1000 (λ turn i. turn + i) guarded session
        ≡ serve 1000 (λ turn i. turn + i) guarded session)
serve_conn-serve_example = serve_conn-serve 1000 (λ turn i. turn + i) guarded session

abbrev after_set : Option (Store × Option StoreError) → Store
after_set none = new small
after_set (some (s', _)) = s'

abbrev forever : Store
forever = after_set (Stores.set 1 key_a nineteen (pos (0 * second)) (new small))

abbrev show : Counters → Stats → Bytes
show counters st = []
