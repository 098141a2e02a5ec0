-- ===== src/WorkerPool/Tests.antt =====
-- A pool of one thread that is given two tasks and stopped when it has begun the first.
use chater.Common.{ℕ, zero, suc, ◌≤◌, ◌<◌, ◌≡◌, refl, true, false, List, [], ◌∷◌, arith, length}
use chater.WorkerPool.{
  pool_event, start_pool, thread_step, step_at, run_task, new_threads, run_in_thread, take_task,
}
use chater.Pool.Tasks.{count}
use chater.WorkerPool.Tasks.{in_hand}
use chater.WorkerPool.{
  working, ThreadPool, all_gone, stop_pool, PoolEvent, starts, stops, runs, steps, pool_events,
}
use chater.WorkerPool.Tasks.{IsSound, pool_events-IsSound}
use chater.WorkerPool.Stopping.{run_steps, steps_of, run_steps-stopped}

abbrev one : ThreadPool
one = record {
  running = false;
  num_threads = 1;
  threads = [];
  queue = [];
  accepted = [];
  begun = [];
  finished = [];
}

one-IsSound : IsSound one
unfolding count in_hand
one-IsSound = record { fifo = refl; at_once = λ e. refl; in_progress = λ t. omega arith }

abbrev events : List PoolEvent
events = starts ∷ runs 7 ∷ runs 8 ∷ steps 0 ∷ steps 0 ∷ stops ∷ []

abbrev after : ThreadPool
after = record {
  running = false;
  num_threads = 1;
  threads = working 7 ∷ [];
  queue = 8 ∷ [];
  accepted = 7 ∷ 8 ∷ [];
  begun = 7 ∷ [];
  finished = [];
}

pool_events-IsSound_example : IsSound after
unfolding pool_events pool_event start_pool stop_pool thread_step step_at run_task new_threads
    run_in_thread take_task
pool_events-IsSound_example = pool_events-IsSound events one after one-IsSound refl

three : (i : ℕ) → i < 1 → 3 ≤ steps_of i (0 ∷ 0 ∷ 0 ∷ [])
unfolding steps_of
three zero h = omega arith
three (suc i) h = absurd (omega arith)

run_steps-stopped_example :
    (all_gone (run_steps (0 ∷ 0 ∷ 0 ∷ []) (stop_pool after)).threads ≡ true)
    × (length (run_steps (0 ∷ 0 ∷ 0 ∷ []) (stop_pool after)).begun ≤ 2)
run_steps-stopped_example = run_steps-stopped (0 ∷ 0 ∷ 0 ∷ []) after three
