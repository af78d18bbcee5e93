-- ===== src/Benchmark.antt =====
-- internal/benchmark/runner.go: how the operations of a benchmark are split among its workers.
pub mod Client
pub mod Replies
pub mod EndToEnd
use native.Mathlib.Nat.{div-add-mod, mod-lt}
use mini_key_value_store.Prelude.{
  ℕ, zero, suc, ◌+◌, ◌-◌, ◌*◌, ◌/◌, ◌%◌, ◌≤◌, ◌<◌, ltb, if◌then◌else◌, ◌≡◌, arith,
}

-- The smaller of two ints
abbrev pub min : ℕ → ℕ → ℕ
min a b = if ltb b a then b else a

-- `workerSlice`: the operations from the first number up to the second.
unfoldable pub worker_slice : ℕ → ℕ → ℕ → ℕ × ℕ
worker_slice total concurrency worker =
    let base = total / concurrency in
    let extra = total % concurrency in
    let start = worker * base + min worker extra in
    let width = if ltb worker extra then base + 1 else base in (start, start + width)

-- For at least one worker: the slice of the first one starts at 0, each ends where the next one
-- starts, the last one ends at the total, and each has the quotient of the operations by the
-- workers or one more.
pub worker_slice_lem :
    (total concurrency worker : ℕ)
    → 0 < concurrency
    → ((worker_slice total concurrency 0).0 ≡ 0)
      × ((worker_slice total concurrency worker).1
          ≡ (worker_slice total concurrency (worker + 1)).0)
      × ((worker_slice total concurrency (concurrency - 1)).1 ≡ total)
      × ((worker_slice total concurrency worker).0 + total / concurrency
          ≤ (worker_slice total concurrency worker).1)
      × ((worker_slice total concurrency worker).1 - (worker_slice total concurrency worker).0
          ≤ total / concurrency + 1)
unfolding worker_slice
worker_slice_lem total zero worker h = absurd (omega arith)
worker_slice_lem total (suc k) worker h = (
  grind arith,
  grind arith,
  grind (arith, div-add-mod total (suc k), mod-lt total h),
  ground arith,
  ground arith,
)
