-- ===== src/Minikv/Accept.antt =====
-- cmd/minikv/main.go: `run` from the listener to the shutdown.
use mini_key_value_store.Prelude.{
  ℕ, Bool, ◌||◌, List, [], ◌∷◌, ◌++◌, if◌then◌else◌, Outcome, returns, fails,
}
use mini_key_value_store.Config.{Config}
use mini_key_value_store.Minikv.{Network, ListenError, Scheme, listen}

-- What `Accept` returns: a connection, or an error with the answers of `errors.Is(ctx.Err(),
-- context.Canceled)` and `errors.Is(err, net.ErrClosed)`.
pub data Accepted (E : Type 0) : Type 0 where
  accepts : ℕ → Accepted E
  refuses : Bool → Bool → E → Accepted E

-- `run` waits for a connection, ends after its shutdown, or returns an error; with the connections
-- that it has given to `ServeConn`.
pub data Run (E : Type 0) : Type 0 where
  waits : List ℕ → Run E
  shuts_down : List ℕ → Run E
  accept_failed : List ℕ → E → Run E
  not_listening : ListenError E → Run E

unfoldable pub accept_loop : {E : Type 0} → List ℕ → List (Accepted E) → Run E
accept_loop served [] = waits served
accept_loop served (accepts id ∷ rest) = accept_loop (served ++ id ∷ []) rest
accept_loop served (refuses canceled closed e ∷ rest) =
    if canceled || closed then shuts_down served else accept_failed served e

abbrev pub start_loop :
    {E L : Type 0} → List (Accepted E) → Outcome (ListenError E) (L × Scheme) → Run E
start_loop accepted (fails e) = not_listening e
start_loop accepted (returns l) = accept_loop [] accepted

unfoldable pub run : {E L C : Type 0} → Network E L C → Config → List (Accepted E) → Run E
unfolding accept_loop listen
run net cfg accepted = start_loop accepted (listen net cfg)
