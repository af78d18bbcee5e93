-- ===== src/Tests/Server.antt =====
-- Examples of the server.
use mini_key_value_store.Prelude.{◌+◌, ◌*◌, ◌^◌, ◌<◌, [], Option, some, none, ◌≡◌, refl, arith, pos}
use mini_key_value_store.Table
use mini_key_value_store.Store as Stores
use mini_key_value_store.Store.{Store, shard_index, fnv1a, on_shard, shard_for, at_index, set_index}
use mini_key_value_store.Item.{StoreError}
use mini_key_value_store.Shard.{item_size}
use mini_key_value_store.Shard.Methods
use mini_key_value_store.Store.Config.{
  per_shard_memory, normalize_config, default_config, per_shard_memory, new_shard, magnitude, new,
}
use mini_key_value_store.Store.Valid.{IsValid}
use mini_key_value_store.Store.Start.{limits_of, new-IsValid}
use mini_key_value_store.Protocol.Requests.{set, print}
use mini_key_value_store.Server.{Server, new_server, with_auth_token}
use mini_key_value_store.Server.Execute.{second}
use mini_key_value_store.Server.Loop.{serve}
use mini_key_value_store.Server.Auth.{GuardedEnd, serve-GuardedEnd}
use mini_key_value_store.Tests.{small, key_a, text, nineteen}

-- A server with the token `text`.
abbrev pub guarded : Server
guarded = with_auth_token text (new_server (new small))

few_shards : magnitude (normalize_config small).shards < 2 ^ 32
unfolding normalize_config default_config
few_shards = omega arith

pub store-IsValid :
    IsValid
      (limits_of (normalize_config small))
      (magnitude (normalize_config small).shards)
      (new small)
store-IsValid = new-IsValid small few_shards

serve-GuardedEnd_example :
    GuardedEnd 1000
      (print (set key_a 60 text) [])
      guarded
      (serve 1000 (λ turn i. turn + i) guarded (print (set key_a 60 text) []))
serve-GuardedEnd_example =
    serve-GuardedEnd text 1000 (λ turn i. turn + i) (new_server (new small))
      (print (set key_a 60 text) []) (λ e. cc)

-- The new store once `a` is set in it for a minute.
abbrev after_set : Option (Store × Option StoreError) → Store
after_set none = new small
after_set (some (s', _)) = s'

abbrev minute : Store
minute = after_set (Stores.set 1 key_a nineteen (pos (60 * second)) (new small))

minute-set : Stores.set 1 key_a nineteen (pos (60 * second)) (new small) ≡ some (minute, none)
unfolding new Stores.set shard_index fnv1a on_shard shard_for at_index set_index normalize_config
    default_config per_shard_memory new_shard Methods.set Methods.drop_stale Table.lookup item_size
    Methods.set_room
minute-set = refl
