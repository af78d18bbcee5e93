-- ===== src/Server/Snapshot.antt =====
-- internal/server/server.go: `Stats`, the snapshot of a server, and `writeStats`. `Stats` here is that
-- of the store; the one of the server is `Snapshot`.
use mini_key_value_store.Prelude.{ℕ, ◌-◌, ◌/◌, ◌%◌, Bytes, List, [], ◌∷◌, ◌++◌}
use mini_key_value_store.Decimal.{format_uint}
use mini_key_value_store.Config.{second}
use mini_key_value_store.Config.Float.{float, add, divide, truncate}
use mini_key_value_store.Store.{Stats}
use mini_key_value_store.Server.{Counters}
use mini_key_value_store.Server.Slots.{Slots}
use mini_key_value_store.Server.Wire.{write_line, end_word}

pub record Snapshot : Type 0 where
  pub started_at : ℕ
  pub uptime : ℕ
  pub connections_opened : ℕ
  pub connections_active : ℕ
  pub connections_rejected : ℕ
  pub counters : Counters
  pub store : Stats

-- `Stats`, at the time `now`.
unfoldable pub snapshot : ℕ → ℕ → Slots → Counters → Stats → Snapshot
snapshot started_at now slots counters st = record {
  started_at = started_at;
  uptime = now - started_at;
  connections_opened = slots.connections_opened;
  connections_active = slots.connections_active;
  connections_rejected = slots.connections_rejected;
  counters = counters;
  store = st;
}

-- `int64(d.Seconds())`: the whole seconds and the rest as float64, added and cut off.
unfoldable pub uptime_seconds : ℕ → ℕ
unfolding float divide add truncate
uptime_seconds d = truncate (add (float (d / second)) (divide (float (d % second)) (float second)))

unfoldable pub stat_lines : Snapshot → List (Bytes × ℕ)
unfolding uptime_seconds
stat_lines s =
    (
      b'u' ∷ b'p' ∷ b't' ∷ b'i' ∷ b'm' ∷ b'e' ∷ b'_' ∷ b's' ∷ b'e' ∷ b'c' ∷ b'o' ∷ b'n' ∷ b'd'
          ∷ b's' ∷ [],
      uptime_seconds s.uptime,
    )
    ∷ (
      b'c' ∷ b'o' ∷ b'n' ∷ b'n' ∷ b'e' ∷ b'c' ∷ b't' ∷ b'i' ∷ b'o' ∷ b'n' ∷ b's' ∷ b'_' ∷ b'o'
          ∷ b'p' ∷ b'e' ∷ b'n' ∷ b'e' ∷ b'd' ∷ [],
      s.connections_opened,
    )
    ∷ (
      b'c' ∷ b'o' ∷ b'n' ∷ b'n' ∷ b'e' ∷ b'c' ∷ b't' ∷ b'i' ∷ b'o' ∷ b'n' ∷ b's' ∷ b'_' ∷ b'a'
          ∷ b'c' ∷ b't' ∷ b'i' ∷ b'v' ∷ b'e' ∷ [],
      s.connections_active,
    )
    ∷ (
      b'c' ∷ b'o' ∷ b'n' ∷ b'n' ∷ b'e' ∷ b'c' ∷ b't' ∷ b'i' ∷ b'o' ∷ b'n' ∷ b's' ∷ b'_' ∷ b'r'
          ∷ b'e' ∷ b'j' ∷ b'e' ∷ b'c' ∷ b't' ∷ b'e' ∷ b'd' ∷ [],
      s.connections_rejected,
    )
    ∷ (
      b'a' ∷ b'u' ∷ b't' ∷ b'h' ∷ b'_' ∷ b'f' ∷ b'a' ∷ b'i' ∷ b'l' ∷ b'u' ∷ b'r' ∷ b'e' ∷ b's' ∷ [],
      s.counters.auth_failures,
    )
    ∷ (
      b'c' ∷ b'l' ∷ b'i' ∷ b'e' ∷ b'n' ∷ b't' ∷ b'_' ∷ b'e' ∷ b'r' ∷ b'r' ∷ b'o' ∷ b'r' ∷ b's' ∷ [],
      s.counters.client_errors,
    )
    ∷ (
      b's' ∷ b'e' ∷ b'r' ∷ b'v' ∷ b'e' ∷ b'r' ∷ b'_' ∷ b'e' ∷ b'r' ∷ b'r' ∷ b'o' ∷ b'r' ∷ b's' ∷ [],
      s.counters.server_errors,
    )
    ∷ (b'c' ∷ b'm' ∷ b'd' ∷ b'_' ∷ b'g' ∷ b'e' ∷ b't' ∷ [], s.counters.cmd_get)
    ∷ (b'c' ∷ b'm' ∷ b'd' ∷ b'_' ∷ b's' ∷ b'e' ∷ b't' ∷ [], s.counters.cmd_set)
    ∷ (
      b'c' ∷ b'm' ∷ b'd' ∷ b'_' ∷ b'd' ∷ b'e' ∷ b'l' ∷ b'e' ∷ b't' ∷ b'e' ∷ [],
      s.counters.cmd_delete,
    )
    ∷ (b'c' ∷ b'm' ∷ b'd' ∷ b'_' ∷ b'i' ∷ b'n' ∷ b'c' ∷ b'r' ∷ [], s.counters.cmd_incr)
    ∷ (b'c' ∷ b'm' ∷ b'd' ∷ b'_' ∷ b'm' ∷ b'g' ∷ b'e' ∷ b't' ∷ [], s.counters.cmd_mget)
    ∷ (b'c' ∷ b'm' ∷ b'd' ∷ b'_' ∷ b'g' ∷ b'e' ∷ b't' ∷ b's' ∷ [], s.counters.cmd_gets)
    ∷ (b'c' ∷ b'm' ∷ b'd' ∷ b'_' ∷ b'c' ∷ b'a' ∷ b's' ∷ [], s.counters.cmd_cas)
    ∷ (b'c' ∷ b'm' ∷ b'd' ∷ b'_' ∷ b's' ∷ b't' ∷ b'a' ∷ b't' ∷ b's' ∷ [], s.counters.cmd_stats)
    ∷ (b'c' ∷ b'm' ∷ b'd' ∷ b'_' ∷ b'a' ∷ b'u' ∷ b't' ∷ b'h' ∷ [], s.counters.cmd_auth)
    ∷ (b'c' ∷ b'm' ∷ b'd' ∷ b'_' ∷ b'p' ∷ b'i' ∷ b'n' ∷ b'g' ∷ [], s.counters.cmd_ping)
    ∷ (b'i' ∷ b't' ∷ b'e' ∷ b'm' ∷ b's' ∷ [], s.store.items)
    ∷ (
      b'm' ∷ b'e' ∷ b'm' ∷ b'o' ∷ b'r' ∷ b'y' ∷ b'_' ∷ b'b' ∷ b'y' ∷ b't' ∷ b'e' ∷ b's' ∷ [],
      s.store.memory_bytes,
    )
    ∷ (
      b'm' ∷ b'a' ∷ b'x' ∷ b'_' ∷ b'm' ∷ b'e' ∷ b'm' ∷ b'o' ∷ b'r' ∷ b'y' ∷ b'_' ∷ b'b' ∷ b'y'
          ∷ b't' ∷ b'e' ∷ b's' ∷ [],
      s.store.max_memory_bytes,
    )
    ∷ (b'e' ∷ b'v' ∷ b'i' ∷ b'c' ∷ b't' ∷ b'i' ∷ b'o' ∷ b'n' ∷ b's' ∷ [], s.store.evictions)
    ∷ (
      b'e' ∷ b'x' ∷ b'p' ∷ b'i' ∷ b'r' ∷ b'a' ∷ b't' ∷ b'i' ∷ b'o' ∷ b'n' ∷ b's' ∷ [],
      s.store.expirations,
    )
    ∷ (b's' ∷ b'h' ∷ b'a' ∷ b'r' ∷ b'd' ∷ b's' ∷ [], s.store.num_shards)
    ∷ []

abbrev pub stat_word : Bytes
stat_word = b'S' ∷ b'T' ∷ b'A' ∷ b'T' ∷ []

unfoldable pub write_stat_lines : List (Bytes × ℕ) → Bytes
unfolding write_line
write_stat_lines [] = write_line end_word
write_stat_lines ((name, value) ∷ lines) =
    write_line (stat_word ++ 32 ∷ name ++ 32 ∷ format_uint value) ++ write_stat_lines lines

unfoldable pub write_stats : Snapshot → Bytes
unfolding write_stat_lines stat_lines
write_stats s = write_stat_lines (stat_lines s)
