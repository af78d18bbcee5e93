-- ===== src/Tests/Benchmark.antt =====
-- Examples of the split of operations among workers.
use mini_key_value_store.Prelude.{◌+◌, ◌-◌, ◌/◌, ◌≤◌, ◌≡◌, refl, arith}
use mini_key_value_store.Benchmark.{worker_slice, worker_slice_lem}

split_ten : worker_slice 10 4 2 ≡ (6, 8)
unfolding worker_slice
split_ten = refl

worker_slice_lem_example :
    ((worker_slice 10 4 0).0 ≡ 0)
    × ((worker_slice 10 4 2).1 ≡ (worker_slice 10 4 (2 + 1)).0)
    × ((worker_slice 10 4 (4 - 1)).1 ≡ 10)
    × ((worker_slice 10 4 2).0 + 10 / 4 ≤ (worker_slice 10 4 2).1)
    × ((worker_slice 10 4 2).1 - (worker_slice 10 4 2).0 ≤ 10 / 4 + 1)
worker_slice_lem_example = worker_slice_lem 10 4 2 (omega arith)
