-- ===== src/Server/Lifecycle.antt =====
-- internal/server/server.go: the goroutines of `ServeConn` and `Shutdown` beside each other, in steps as
-- small as the code makes them under one lock or by one atomic operation.
pub mod Counts
pub mod Balance
pub mod Drains
use mini_key_value_store.Prelude.{
  ℕ, zero, suc, ◌+◌, ◌-◌, Bool, true, false, ◌||◌, Option, none, some, List, [], ◌∷◌, ◌++◌, map,
  if◌then◌else◌, ◌==◌, ℤ,
}
use mini_key_value_store.Shard.{add_uint64}
use mini_key_value_store.Store.{at_index, set_index}
use mini_key_value_store.Store.Config.{is_nonpositive}
use mini_key_value_store.Server.Slots.{capacity_for, acquire_slot, release_slot}

-- How far a call of `ServeConn` is: what it has done last. `top` is the top of the loop of
-- `serveConn`, `reading` the read of a command, and `executing` what follows it in the loop.
pub data Phase : Type 0 where
  started opened refused admitted counted registered top reading executing : Phase
  returned closed inactive deregistered done gone : Phase

-- The deadline of the reads of a connection: none, one that the idle timeout sets, or one that has
-- passed, as `Shutdown` sets it.
pub data Deadline : Type 0 where
  no_deadline idle past : Deadline

-- A connection: whether it is a member of `conns`, and whether it is closed.
pub record Conn : Type 0 where
  pub phase : Phase
  pub deadline : Deadline
  pub member : Bool
  pub is_closed : Bool

-- `Shutdown` is not called; it waits; it waits after it closed the connections; or it returned, with
-- nil if `true`.
pub data Stage : Type 0 where
  not_called waiting forcing : Stage
  shut : Bool → Stage

pub record Life : Type 0 where
  pub capacity : Option ℕ
  pub held : ℕ
  pub idle_timeout : Bool
  pub wg : ℕ
  pub connections_opened : ℕ
  pub connections_active : ℕ
  pub connections_rejected : ℕ
  pub calls : List Conn
  pub stage : Stage

-- `New`, `WithMaxConnections(n)` and `WithIdleTimeout(d)`
abbrev pub begin : ℤ → ℤ → Life
begin n d = record {
  capacity = capacity_for n;
  held = 0;
  idle_timeout = if is_nonpositive d then false else true;
  wg = 0;
  connections_opened = 0;
  connections_active = 0;
  connections_rejected = 0;
  calls = [];
  stage = not_called;
}

abbrev pub new_conn : Conn
new_conn = record { phase = started; deadline = no_deadline; member = false; is_closed = false }

abbrev pub put : ℕ → Conn → Life → Life
put i c l = record l { calls = set_index l.calls i c }

-- `acquireSlot`
abbrev pub take_slot : ℕ → Conn → Life → Bool × ℕ → Life
take_slot i c l (true, held) = put i (record c { phase = admitted }) (record l { held = held })
take_slot i c l (false, held) = put i (record c { phase = refused }) l

-- The next step of the call with the index `i`. `more` says that the read gave a command, or that the
-- loop goes on after one. A read may give a command although the deadline has passed or the connection
-- is closed, since the reader has a buffer, and may fail at any time.
unfoldable pub next_step : ℕ → Bool → Conn → Life → Phase → Life
next_step i more c l started =
    put i (record c { phase = opened })
      (record l { connections_opened = add_uint64 l.connections_opened 1 })
next_step i more c l opened = take_slot i c l (acquire_slot l.capacity l.held)
next_step i more c l refused =
    put i (record c { phase = gone; is_closed = true })
      (record l { connections_rejected = add_uint64 l.connections_rejected 1 })
next_step i more c l admitted = put i (record c { phase = counted }) (record l { wg = l.wg + 1 })
next_step i more c l counted = put i (record c { phase = registered; member = true }) l
next_step i more c l registered =
    put i (record c { phase = top }) (record l { connections_active = l.connections_active + 1 })
next_step i more c l top =
    put i (record c { phase = reading; deadline = if l.idle_timeout then idle else c.deadline }) l
next_step i more c l reading = put i (record c { phase = if more then executing else returned }) l
next_step i more c l executing = put i (record c { phase = if more then top else returned }) l
next_step i more c l returned = put i (record c { phase = closed; is_closed = true }) l
next_step i more c l closed =
    put i (record c { phase = inactive })
      (record l { connections_active = l.connections_active - 1 })
next_step i more c l inactive = put i (record c { phase = deregistered; member = false }) l
next_step i more c l deregistered = put i (record c { phase = done }) (record l { wg = l.wg - 1 })
next_step i more c l done =
    put i (record c { phase = gone }) (record l { held = release_slot l.capacity l.held })
next_step i more c l gone = l

-- The loops of `Shutdown` over `conns`.
abbrev pub expire_conn : Conn → Conn
expire_conn c = if c.member then record c { deadline = past } else c

abbrev pub force_conn : Conn → Conn
force_conn c = if c.member then record c { is_closed = true } else c

-- A connection is accepted, which calls `ServeConn`; the call with an index takes a step; `Shutdown`
-- is called; its context expires; or it sees that the calls are done.
pub data Event : Type 0 where
  accepts : Event
  advances : ℕ → Bool → Event
  shuts : Event
  expires : Event
  drains : Event

abbrev pub shut_down : Stage → Life → Life
shut_down not_called l = record l { calls = map expire_conn l.calls; stage = waiting }
shut_down s l = l

abbrev pub expire : Stage → Life → Life
expire waiting l = record l { calls = map force_conn l.calls; stage = forcing }
expire s l = l

abbrev pub drain : Stage → Life → Life
drain waiting l = if l.wg == 0 then record l { stage = shut true } else l
drain forcing l = if l.wg == 0 then record l { stage = shut false } else l
drain s l = l

abbrev pub advance : ℕ → Bool → Life → Option Conn → Life
advance i more l none = l
advance i more l (some c) = next_step i more c l c.phase

-- An event that is not possible leaves the state as it is.
unfoldable pub happen : Event → Life → Life
unfolding next_step
happen accepts l = record l { calls = l.calls ++ new_conn ∷ [] }
happen (advances i more) l = advance i more l (at_index l.calls i)
happen shuts l = shut_down l.stage l
happen expires l = expire l.stage l
happen drains l = drain l.stage l

unfoldable pub run : List Event → Life → Life
unfolding happen
run [] l = l
run (e ∷ es) l = run es (happen e l)
