-- ===== src/Tests/Lifecycle.antt =====
-- Examples of the calls of `ServeConn` and of `Shutdown` beside each other.
use mini_key_value_store.Prelude.{
  ℕ, zero, suc, ◌≤◌, true, false, some, List, [], ◌∷◌, ◌++◌, All, ◌≡◌, refl, inl, pos,
}
use mini_key_value_store.Store.{at_index, set_index}
use mini_key_value_store.Server.Slots.{acquire_slot, release_slot}
use mini_key_value_store.Server.Lifecycle
use mini_key_value_store.Server.Lifecycle.{Conn, Life, Event, begin, next_step, happen, run}
use mini_key_value_store.Server.Lifecycle.Counts.{in_slot, in_wait, in_conns, in_active, count}
use mini_key_value_store.Server.Lifecycle.Drains.{run-counts, shut-finished}

abbrev steps : ℕ → ℕ → List Event → List Event
steps i zero es = es
steps i (suc k) es = Lifecycle.advances i true ∷ steps i k es

-- Two connections come to a server with a cap of one; the first is executing a command.
abbrev two : List Event
two = Lifecycle.accepts ∷ Lifecycle.accepts ∷ steps 0 7 (steps 1 3 [])

run-counts_example :
    ((run two (begin (pos 1) (pos 0))).held ≡ count in_slot (run two (begin (pos 1) (pos 0))).calls)
    × (count in_slot (run two (begin (pos 1) (pos 0))).calls ≤ 1)
    × ((run two (begin (pos 1) (pos 0))).wg ≡ count in_wait (run two (begin (pos 1) (pos 0))).calls)
    × ((run two (begin (pos 1) (pos 0))).connections_active
        ≡ count in_active (run two (begin (pos 1) (pos 0))).calls)
    × All (λ c. c.member ≡ in_conns c.phase) (run two (begin (pos 1) (pos 0))).calls
run-counts_example = run-counts 0 (pos 0) two

-- The second was refused.
second_refused :
    ((run two (begin (pos 1) (pos 0))).connections_rejected ≡ 1)
    × ((run two (begin (pos 1) (pos 0))).connections_active ≡ 1)
unfolding run happen next_step at_index set_index acquire_slot
second_refused = (refl, refl)

-- The client of the first sends no more; `Shutdown` is called and waits for it.
abbrev finished : List Event
finished = two ++ Lifecycle.shuts ∷ steps 0 2 (Lifecycle.advances 0 false ∷ steps 0 6 [])

shut-finished_example :
    All
      (λ c. (in_wait c.phase ≡ false) × (c.member ≡ false))
      (run finished (begin (pos 1) (pos 0))).calls
unfolding run happen next_step at_index set_index acquire_slot release_slot
shut-finished_example = shut-finished (pos 1) (pos 0) finished true (inl refl) refl

-- With an idle timeout, a connection that executes a command when `Shutdown` is called sets its
-- deadline anew, and its reads do not fail.
overwritten :
    at_index (run (two ++ Lifecycle.shuts ∷ steps 0 2 []) (begin (pos 1) (pos 5))).calls 0
    ≡ some (record {
      phase = Lifecycle.reading;
      deadline = Lifecycle.idle;
      member = true;
      is_closed = false;
    })
unfolding run happen next_step at_index set_index acquire_slot
overwritten = refl
