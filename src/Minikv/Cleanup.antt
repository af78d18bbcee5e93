-- ===== src/Minikv/Cleanup.antt =====
-- cmd/minikv/main.go: `cleanupExpired`, which runs beside the calls of the connections.
use mini_key_value_store.Prelude.{
  ℕ, zero, suc, Bool, true, false, Option, none, some, List, [], ◌∷◌, ℤ, pos, negsuc, ◌≡◌, refl,
  length, ltb, if◌then◌else◌,
}
use mini_key_value_store.Shard.Repr.{Limits}
use mini_key_value_store.Store.{Store}
use mini_key_value_store.Store.Valid.{IsValid}
use mini_key_value_store.Store.Calls.{Call, step, step-IsValid}
use mini_key_value_store.Store.Turns.{Loop, take_turn, take_turn-IsValid}
use mini_key_value_store.Store.Sweeps.{begin, cleanup_turn, cleanup_turn-ShardValid}

-- What happens to the store, in its order: the loop receives a tick, which starts a sweep; the sweep
-- takes a turn, with its reading of the clock; the context is cancelled; or a connection calls the
-- store. A tick during a sweep and a turn without one are no events.
pub data Event : Type 0 where
  tick : Event
  turn : ℕ → Event
  cancel : Event
  call : Call → Event

-- The sweep after a turn, unless that was the turn of the last shard.
abbrev pub sweep_left : Loop ℕ → Store → Option (Loop ℕ)
sweep_left l s = if ltb l.next (length s.shards) then some l else none

-- `running` until the context is cancelled; `sweep` is the sweep that is under way. `none` is a panic.
unfoldable pub ticker_loop : Bool → Option (Loop ℕ) → List Event → Store → Option Store
ticker_loop running sweep [] s = some s
ticker_loop true none (tick ∷ es) s = ticker_loop true (some (begin 0)) es s
ticker_loop false none (tick ∷ es) s = ticker_loop false none es s
ticker_loop running (some l) (tick ∷ es) s = ticker_loop running (some l) es s
ticker_loop running none (turn now ∷ es) s = ticker_loop running none es s
ticker_loop running (some l) (turn now ∷ es) s =
    let (s', l') = take_turn cleanup_turn now l s in ticker_loop running (sweep_left l' s') es s'
ticker_loop running sweep (cancel ∷ es) s = ticker_loop false sweep es s
ticker_loop running sweep (call c ∷ es) s = elim (step c s) [
  | none ↦ none
  | some s' ↦ ticker_loop running sweep es s'
]

-- `time.NewTicker` panics unless the interval is positive; an interval of 0 starts no ticker.
unfoldable pub cleanup_loop : ℤ → List Event → Store → Option Store
unfolding ticker_loop
cleanup_loop (pos zero) es s = ticker_loop false none es s
cleanup_loop (pos (suc n)) es s = ticker_loop true none es s
cleanup_loop (negsuc n) es s = none

module _ (lim : Limits) (n : ℕ) where
  turn-IsValid :
      (now : ℕ) (l : Loop ℕ) (s : Store)
      → IsValid lim n s
      → IsValid lim n (take_turn cleanup_turn now l s).0
  turn-IsValid now l s v =
      (take_turn-IsValid cleanup_turn lim n (λ i r. Unit)
        (λ now i sh r b w p. (cleanup_turn-ShardValid lim now sh r w, tt)) now l s v tt).0

  -- On a valid store nothing panics, whatever the order of the events, and the store stays valid.
  pub ticker_loop-IsValid :
      (running : Bool) (sweep : Option (Loop ℕ)) (es : List Event) (s : Store)
      → IsValid lim n s
      → (s' : Store) × (ticker_loop running sweep es s ≡ some s') × IsValid lim n s'
  unfolding ticker_loop
  ticker_loop-IsValid running sweep [] s v = (s, refl, v)
  ticker_loop-IsValid true none (tick ∷ es) s v = ticker_loop-IsValid true (some (begin 0)) es s v
  ticker_loop-IsValid false none (tick ∷ es) s v = ticker_loop-IsValid false none es s v
  ticker_loop-IsValid running (some l) (tick ∷ es) s v = ticker_loop-IsValid running (some l) es s v
  ticker_loop-IsValid running none (turn now ∷ es) s v = ticker_loop-IsValid running none es s v
  ticker_loop-IsValid running (some l) (turn now ∷ es) s v =
      let (s', l') = take_turn cleanup_turn now l s in
      ticker_loop-IsValid running (sweep_left l' s') es s' (turn-IsValid now l s v)
  ticker_loop-IsValid running sweep (cancel ∷ es) s v = ticker_loop-IsValid false sweep es s v
  ticker_loop-IsValid running sweep (call c ∷ es) s v =
      let (s', e, v') = step-IsValid lim n c s v in
      let (s'', e', v'') = ticker_loop-IsValid running sweep es s' v' in
      (s'', rw (ticker_loop, e) e', v'')
