-- ===== src/Pool.antt =====
-- gateway/common/ThreadPool.h and ThreadPool.cpp: workers that take submitted tasks from a queue.
-- A task is known by a number. Each part of a worker's loop between two waits, and each method up to
-- its wait, holds the mutex throughout and is one step.
pub mod Tasks
pub mod Drain
pub mod Halts
mod Tests
use chater.Common.{
  ℕ, zero, suc, ◌+◌, ◌≡◌, Bool, true, false, not, ◌&&◌, Option, none, some, List, [], ◌∷◌, ◌++◌,
  if◌then◌else◌, ◌==◌, is_empty,
}

-- Where a worker thread is: waiting on the condition or about to, running a task, or returned.
pub data Worker : Type 0 where
  idle : Worker
  working : ℕ → Worker
  gone : Worker

-- `accepted`, `started` and `finished` note the tasks that were taken into the queue, that a worker
-- took out of it, and that returned, each in its order.
pub record ThreadPool : Type 0 where
  pub running : Bool
  pub tasks : List ℕ
  pub workers : List Worker
  pub accepted : List ℕ
  pub started : List ℕ
  pub finished : List ℕ

unfoldable pub idle_workers : ℕ → List Worker
idle_workers zero = []
idle_workers (suc n) = idle ∷ idle_workers n

-- The constructor.
unfoldable pub new_pool : ℕ → ThreadPool
unfolding idle_workers
new_pool num_threads = record {
  running = true;
  tasks = [];
  workers = idle_workers num_threads;
  accepted = [];
  started = [];
  finished = [];
}

-- `Submit`: the result is false when the pool is closed.
unfoldable pub submit : ℕ → ThreadPool → Bool × ThreadPool
submit task p =
    if p.running
    then (true, record p { tasks = p.tasks ++ task ∷ []; accepted = p.accepted ++ task ∷ [] })
    else (false, p)

-- `Shutdown` up to the joins.
unfoldable pub close : ThreadPool → ThreadPool
close p = record p { running = false }

-- Every worker has been joined.
unfoldable pub all_gone : List Worker → Bool
all_gone [] = true
all_gone (gone ∷ ws) = all_gone ws
all_gone (idle ∷ ws) = false
all_gone (working t ∷ ws) = false

-- `Shutdown` returns when its joins do.
unfoldable pub is_shut_down : ThreadPool → Bool
is_shut_down p = not p.running && all_gone p.workers

-- A worker that waits, with these tasks in the queue.
unfoldable pub wake : List ℕ → ThreadPool → Worker × ThreadPool
wake [] p = (if p.running then idle else gone, p)
wake (t ∷ ts) p = (working t, record p { tasks = ts; started = p.started ++ t ∷ [] })

-- The step of one worker: what it is next, and the tasks and notes after it. A worker that waits
-- goes on when the pool is closed or a task waits; it returns when both the pool is closed and
-- the queue is empty.
unfoldable pub worker_loop : Worker → ThreadPool → Worker × ThreadPool
unfolding wake
worker_loop idle p = wake p.tasks p
worker_loop (working t) p = (idle, record p { finished = p.finished ++ t ∷ [] })
worker_loop gone p = (gone, p)

-- The worker at an index takes its step.
unfoldable pub turn_at : ℕ → List Worker → ThreadPool → List Worker × ThreadPool
turn_at i [] p = ([], p)
turn_at zero (w ∷ ws) p = let (w', p') = worker_loop w p in (w' ∷ ws, p')
turn_at (suc i) (w ∷ ws) p = let (ws', p') = turn_at i ws p in (w ∷ ws', p')

unfoldable pub turn : ℕ → ThreadPool → ThreadPool
turn i p = let (ws, p') = turn_at i p.workers p in record p' { workers = ws }

pub data Event : Type 0 where
  submits : ℕ → Event
  closes : Event
  turns : ℕ → Event

unfoldable pub pool_step : Event → ThreadPool → ThreadPool
pool_step (submits task) p = (submit task p).1
pool_step closes p = close p
pool_step (turns i) p = turn i p

unfoldable pub run_pool : List Event → ThreadPool → ThreadPool
run_pool [] p = p
run_pool (e ∷ es) p = run_pool es (pool_step e p)
