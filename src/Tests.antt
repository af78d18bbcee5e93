-- ===== src/Tests.antt =====
-- Concrete shards that the tests and examples of the store run on.
mod Lifecycle
mod Loader
mod Connections
mod Minikv
mod Shards
mod Reads
mod Stores
mod Lists
mod Benchmark
mod Services
mod Protocol
mod Server
use mini_key_value_store.Prelude.{ℕ, List, [], ◌∷◌, Bytes, none, some, pos, Option}
use mini_key_value_store.Recency.{Items}
use mini_key_value_store.Shard.{Shard}
use mini_key_value_store.Shard.Methods.{set}
use mini_key_value_store.Shard.Repr.{Limits, Repr}
use mini_key_value_store.Shard.Refine.Set.{set-Refines}
use mini_key_value_store.Cache
use mini_key_value_store.Store.Config.{Config, new_shard}
use mini_key_value_store.Store.Start.{new_shard-Repr}

abbrev pub small : Config
small = record {
  max_value_bytes = pos 10;
  max_memory_bytes = pos 30;
  item_overhead_bytes = pos 5;
  shards = pos 3;
}

abbrev pub lim : Limits
lim = record { max_value = 10; max_memory = 30; overhead = 5 }

abbrev pub key_a : Bytes
key_a = b'a' ∷ []

abbrev pub key_b : Bytes
key_b = b'b' ∷ []

abbrev pub key_c : Bytes
key_c = b'c' ∷ []

abbrev pub nineteen : Bytes
nineteen = b'1' ∷ b'9' ∷ []

abbrev pub text : Bytes
text = b't' ∷ b'e' ∷ b'x' ∷ b't' ∷ b's' ∷ b'!' ∷ []

-- Three states of a shard: empty; with `a`; with `a` and, until the time 6, `b`.
abbrev pub shard0 : Shard
shard0 = new_shard small 30

abbrev pub shard1 : Shard
shard1 = (set 1 key_a nineteen (pos 0) shard0 0).0

abbrev pub items1 : Items
items1 = (Cache.set lim 1 key_a nineteen (pos 0) [] 0).0

abbrev pub shard2 : Shard
shard2 = (set 1 key_b text (pos 5) shard1 1).0

abbrev pub items2 : Items
items2 = (Cache.set lim 1 key_b text (pos 5) items1 1).0

pub shard0-Repr : Repr lim shard0 []
shard0-Repr = new_shard-Repr small 30

pub shard1-Repr : Repr lim shard1 items1
shard1-Repr = (set-Refines lim 1 key_a nineteen (pos 0) 0 shard0 [] shard0-Repr).repr

pub shard2-Repr : Repr lim shard2 items2
shard2-Repr = (set-Refines lim 1 key_b text (pos 5) 1 shard1 items1 shard1-Repr).repr
