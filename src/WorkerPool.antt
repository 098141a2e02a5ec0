-- ===== src/WorkerPool.antt =====
-- HPGateway/src/base/ThreadPool.h and ThreadPool.cpp, and the WorkerPool of
-- HPGateway/src/business/WorkerPool.h and WorkerPool.cpp, whose methods only call it. A task is known by a
-- number. What a thread does between two waits, or between two reads of `running_`, is one step.
pub mod Tasks
pub mod Stopping
mod Tests
use chater.Common.{
  ℕ, zero, suc, ◌+◌, Bool, true, false, not, Option, none, some, List, [], ◌∷◌, ◌++◌, if◌then◌else◌,
  length, is_empty, ◌>>=◌, ◌>>◌, assert,
}

-- Where a thread is: before the test of `running_` in `RunInThread`, in `Take`, in a task, or returned.
pub data Thread : Type 0 where
  testing : Thread
  taking : Thread
  working : ℕ → Thread
  gone : Thread

-- `accepted`, `begun` and `finished` note the tasks that were given to `Run`, that a thread or `Run`
-- itself began, and that returned, each in its order.
pub record ThreadPool : Type 0 where
  pub running : Bool
  pub num_threads : ℕ
  pub threads : List Thread
  pub queue : List ℕ
  pub accepted : List ℕ
  pub begun : List ℕ
  pub finished : List ℕ

unfoldable pub new_pool : ThreadPool
new_pool = record {
  running = false;
  num_threads = 0;
  threads = [];
  queue = [];
  accepted = [];
  begun = [];
  finished = [];
}

unfoldable pub set_thread_num : ℕ → ThreadPool → ThreadPool
set_thread_num n p = record p { num_threads = n }

unfoldable pub new_threads : ℕ → List Thread
new_threads zero = []
new_threads (suc n) = testing ∷ new_threads n

-- `Start` adds threads to those of an earlier start.
unfoldable pub start_pool : ThreadPool → Option ThreadPool
start_pool p = do
  assert (not p.running)
  some (record p { running = true; threads = p.threads ++ new_threads p.num_threads })

-- `Stop` up to the joins.
unfoldable pub stop_pool : ThreadPool → ThreadPool
stop_pool p = record p { running = false }

unfoldable pub all_gone : List Thread → Bool
all_gone [] = true
all_gone (gone ∷ ts) = all_gone ts
all_gone (testing ∷ ts) = false
all_gone (taking ∷ ts) = false
all_gone (working t ∷ ts) = false

-- `Run`: without threads the caller runs the task.
unfoldable pub run_task : ℕ → ThreadPool → ThreadPool
run_task task p =
    if is_empty p.threads
    then record p {
      accepted = p.accepted ++ task ∷ [];
      begun = p.begun ++ task ∷ [];
      finished = p.finished ++ task ∷ [];
    }
    else record p { accepted = p.accepted ++ task ∷ []; queue = p.queue ++ task ∷ [] }

abbrev pub queue_size : ThreadPool → ℕ
queue_size p = length p.queue

-- `Take` once it has the mutex, with these tasks in the queue: it waits, gives up or takes the first one.
unfoldable pub take_task : List ℕ → ThreadPool → Thread × ThreadPool
take_task [] p = (if p.running then taking else testing, p)
take_task (t ∷ ts) p = (working t, record p { queue = ts; begun = p.begun ++ t ∷ [] })

-- One step of `RunInThread`.
unfoldable pub run_in_thread : Thread → ThreadPool → Thread × ThreadPool
run_in_thread testing p = (if p.running then taking else gone, p)
run_in_thread taking p = take_task p.queue p
run_in_thread (working t) p = (testing, record p { finished = p.finished ++ t ∷ [] })
run_in_thread gone p = (gone, p)

-- The step of the thread at an index.
unfoldable pub step_at : ℕ → List Thread → ThreadPool → List Thread × ThreadPool
step_at i [] p = ([], p)
step_at zero (t ∷ ts) p = let (t', p') = run_in_thread t p in (t' ∷ ts, p')
step_at (suc i) (t ∷ ts) p = let (ts', p') = step_at i ts p in (t ∷ ts', p')

unfoldable pub thread_step : ℕ → ThreadPool → ThreadPool
thread_step i p = let (ts, p') = step_at i p.threads p in record p' { threads = ts }

-- What happens to a pool: `Start`, `Stop`, `Run` and the steps of its threads, in any order. A second
-- `Start` without a `Stop` fails.
pub data PoolEvent : Type 0 where
  starts : PoolEvent
  stops : PoolEvent
  runs : ℕ → PoolEvent
  steps : ℕ → PoolEvent

unfoldable pub pool_event : PoolEvent → ThreadPool → Option ThreadPool
pool_event starts p = start_pool p
pool_event stops p = some (stop_pool p)
pool_event (runs task) p = some (run_task task p)
pool_event (steps i) p = some (thread_step i p)

unfoldable pub pool_events : List PoolEvent → ThreadPool → Option ThreadPool
pool_events [] p = some p
pool_events (e ∷ es) p = do p' ← pool_event e p; pool_events es p'
