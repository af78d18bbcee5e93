-- ===== src/Tests/Minikv.antt =====
-- A concrete case of each theorem on the command.
use mini_key_value_store.Prelude.{
  ℕ, ◌≤◌, List, [], ◌∷◌, Bytes, ◌≡◌, ◌≢◌, refl, none, some, pos, returns, fails, arith, ◌⊎◌,
}
use mini_key_value_store.Store.{Store, memory_bytes}
use mini_key_value_store.Store.Config.{magnitude, normalize_config, per_shard_memory, new}
use mini_key_value_store.Store.Turns.{take_turn}
use mini_key_value_store.Store.Sweeps.{begin, cleanup_turn}
use mini_key_value_store.Store.Calls.{set_call, get_call}
use mini_key_value_store.Config.{default}
use mini_key_value_store.Config.Load.{load}
use mini_key_value_store.Config.InRange.{default-InRange}
use mini_key_value_store.Config.Print.{print}
use mini_key_value_store.Config.RoundTrip.{load-print}
use mini_key_value_store.Minikv.{store_config, Network, tcp, tls, listen}
use mini_key_value_store.Store.Ints.{IsExact}
use mini_key_value_store.Minikv.Cleanup.{Event, tick, turn, cancel, call, cleanup_loop, ticker_loop}
use mini_key_value_store.Minikv.Safe.{cleanup_loop_in_range, listen-load}
use mini_key_value_store.Tests.Loader.{default-IsValid, default-IsText}

abbrev key : Bytes
key = b'k' ∷ []

abbrev events : List Event
events =
    call (set_call 1 key key (pos 5))
    ∷ tick
    ∷ turn 9
    ∷ call (get_call 10 key)
    ∷ cancel
    ∷ turn 11
    ∷ tick
    ∷ []

default_loaded :
    load {E = ℕ} (returns (record { content = print default; read_error = none })) ≡ returns default
default_loaded = load-print default default-IsValid default-InRange default-IsText

cleanup_loop_in_range_example :
    (normalize_config (store_config default) ≡ store_config default)
    × (s : Store) × (cleanup_loop default.cleanup_interval events (new (store_config default))
        ≡ some s)
    × (memory_bytes s ≤ magnitude default.max_memory_bytes)
    × IsExact (set_call 12 key key (pos 5)) s
unfolding default per_shard_memory store_config
cleanup_loop_in_range_example =
    cleanup_loop_in_range {E = ℕ} (returns (record { content = print default; read_error = none }))
      default events (set_call 12 key key (pos 5)) default_loaded (omega arith) (omega arith)
      (omega arith, (tt, (tt, (tt, (tt, (tt, (tt, tt))))))) (omega arith)

abbrev net : Network ℕ ℕ ℕ
net = record {
  listen_tcp = λ _. returns 1;
  load_keypair = λ _ _. fails 2;
  listen_tls = λ _ _. returns 3;
}

listens : listen net default ≡ returns (1, tcp)
unfolding listen default
listens = refl

listen-load_example :
    ((default.tls_cert ≡ [])
      × (default.tls_key ≡ [])
      × (tcp ≡ tcp)
      × (net.listen_tcp default.addr ≡ returns 1))
    ⊎ ((default.tls_cert ≢ [])
        × (default.tls_key ≢ [])
        × (tcp ≡ tls)
        × (pair : ℕ) × (net.load_keypair default.tls_cert default.tls_key ≡ returns pair)
        × (net.listen_tls pair default.addr ≡ returns 1))
listen-load_example =
    listen-load {F = ℕ} (returns (record { content = print default; read_error = none })) default
      net 1 tcp default_loaded listens

-- The store once a sweep has passed over its first shard.
abbrev swept : Store
swept = (take_turn cleanup_turn 9 (begin 0) (new (store_config default))).0

swept_after :
    cleanup_loop default.cleanup_interval (tick ∷ turn 9 ∷ []) (new (store_config default))
    ≡ some swept
unfolding cleanup_loop ticker_loop default
swept_after = refl
