-- ===== src/Pool/Tests.antt =====
-- Runs of the pool, and its theorems at such runs.
use chater.Common.{ℕ, length, map, ◌≤◌, ◌≡◌, refl, true, List, [], ◌∷◌, ◌++◌, arith}
use chater.Pool.{
  Event, submits, closes, turns, new_pool, idle_workers, run_pool, pool_step, submit, close, turn,
  turn_at, worker_loop, wake, is_shut_down, all_gone,
}
use chater.Pool.Tasks.{count}
use chater.Pool.Halts.{distance, run_pool-shuts_down}
use chater.Pool.Drain.{run_pool-fifo, run_pool-drains}

-- Two workers, two tasks, and a task that comes too late.
abbrev busy : List Event
busy =
    submits 7
    ∷ submits 8
    ∷ turns 1
    ∷ closes
    ∷ submits 9
    ∷ turns 0
    ∷ turns 0
    ∷ turns 0
    ∷ turns 1
    ∷ turns 1
    ∷ []

order : (run_pool busy (new_pool 2)).finished ≡ 8 ∷ 7 ∷ []
unfolding run_pool pool_step submit close turn turn_at worker_loop wake new_pool idle_workers
order = refl

run_pool-fifo_example : let p = run_pool busy (new_pool 2) in p.accepted ≡ p.started ++ p.tasks
run_pool-fifo_example = run_pool-fifo 2 busy

down : is_shut_down (run_pool busy (new_pool 2)) ≡ true
unfolding run_pool pool_step submit close turn turn_at worker_loop wake new_pool idle_workers
    is_shut_down all_gone
down = refl

run_pool-drains_example :
    let p = run_pool busy (new_pool 2) in (p.tasks ≡ []) × (count 8 p.finished ≡ count 8 p.accepted)
run_pool-drains_example = run_pool-drains 2 busy 8 (omega arith) down

run_pool-shuts_down_example :
    let p = close (run_pool busy (new_pool 2)) in
    (is : List ℕ) × (length is ≤ distance p.workers p)
    × (is_shut_down (run_pool (map turns is) p) ≡ true)
run_pool-shuts_down_example = run_pool-shuts_down 2 busy
