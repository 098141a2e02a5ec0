-- ===== src/WorkerPool/Stopping.antt =====
-- `Stop` of HPGateway/src/base/ThreadPool.cpp: the threads return, whatever still waits in the queue.
use chater.Common.{
  ℕ, zero, suc, ◌+◌, ◌-◌, ◌≤◌, ◌<◌, ◌≡◌, refl, ap, ◌∙◌, true, false, List, [], ◌∷◌, if◌then◌else◌,
  ◌==◌, arith, length, length-append,
}
use chater.WorkerPool.{
  Thread, testing, taking, working, gone, ThreadPool, take_task, run_in_thread, step_at,
  thread_step, stop_pool, all_gone,
}

-- How many steps a thread has left at most, once the pool is stopped.
unfoldable pub rank : Thread → ℕ
rank taking = 3
rank (working t) = 2
rank testing = 1
rank gone = 0

unfoldable pub rank_at : ℕ → List Thread → ℕ
rank_at i [] = 0
rank_at zero (t ∷ ts) = rank t
rank_at (suc i) (t ∷ ts) = rank_at i ts

-- The threads that may still take a task.
unfoldable pub takers : List Thread → ℕ
takers [] = 0
takers (taking ∷ ts) = suc (takers ts)
takers (testing ∷ ts) = takers ts
takers (working t ∷ ts) = takers ts
takers (gone ∷ ts) = takers ts

abbrev pub hit : ℕ → ℕ → ℕ
hit i j = if i == j then 1 else 0

-- A step of the thread at `j` in a pool that is stopped.
record Sinks (j : ℕ) (ts ts' : List Thread) (p p' : ThreadPool) : Type 0 where
  stopped : p'.running ≡ false
  ranks : (i : ℕ) → rank_at i ts' ≤ rank_at i ts - hit j i
  limit : length p'.begun + takers ts' ≤ length p.begun + takers ts
  sizes : length ts' ≡ length ts

takers-cons : (t : Thread) (ts : List Thread) → takers (t ∷ ts) ≡ takers (t ∷ []) + takers ts
unfolding takers
takers-cons testing ts = omega arith
takers-cons taking ts = omega arith
takers-cons (working x) ts = omega arith
takers-cons gone ts = omega arith

first_Sinks :
    (t u : Thread) (ts : List Thread) (p p' : ThreadPool)
    → p'.running ≡ false
    → rank u ≤ rank t - 1
    → length p'.begun + takers (u ∷ []) ≤ length p.begun + takers (t ∷ [])
    → Sinks 0 (t ∷ ts) (u ∷ ts) p p'
unfolding rank_at
first_Sinks t u ts p p' h k l = record {
  stopped = h;
  ranks = ranks_lem;
  limit = omega (arith, takers-cons t ts, takers-cons u ts);
  sizes = refl;
}
  where
    ranks_lem : (i : ℕ) → rank_at i (u ∷ ts) ≤ rank_at i (t ∷ ts) - hit 0 i
    ranks_lem zero = k
    ranks_lem (suc i) = ground arith

take_task-Sinks :
    (q : List ℕ) (ts : List Thread) (p : ThreadPool)
    → p.running ≡ false
    → Sinks 0 (taking ∷ ts) ((take_task q p).0 ∷ ts) p (take_task q p).1
unfolding take_task rank takers
take_task-Sinks [] ts p h =
    simp (take_task, h) (first_Sinks taking testing ts p p h (omega arith) (omega arith))
take_task-Sinks (q ∷ qs) ts p h =
    first_Sinks taking (working q) ts p (take_task (q ∷ qs) p).1 h (omega arith)
      (omega (arith, length-append p.begun (q ∷ [])))

run_in_thread-Sinks :
    (t : Thread) (ts : List Thread) (p : ThreadPool)
    → p.running ≡ false
    → Sinks 0 (t ∷ ts) ((run_in_thread t p).0 ∷ ts) p (run_in_thread t p).1
unfolding run_in_thread rank takers
run_in_thread-Sinks testing ts p h =
    simp (run_in_thread, h) (first_Sinks testing gone ts p p h (omega arith) (omega arith))
run_in_thread-Sinks taking ts p h = take_task-Sinks p.queue ts p h
run_in_thread-Sinks (working x) ts p h =
    first_Sinks (working x) testing ts p (run_in_thread (working x) p).1 h (omega arith)
      (omega arith)
run_in_thread-Sinks gone ts p h = first_Sinks gone gone ts p p h (omega arith) (omega arith)

step_at-Sinks :
    (j : ℕ) (ts : List Thread) (p : ThreadPool)
    → p.running ≡ false
    → Sinks j ts (step_at j ts p).0 p (step_at j ts p).1
unfolding step_at rank_at
step_at-Sinks j [] p h = record {
  stopped = h;
  ranks = λ i. omega arith;
  limit = omega arith;
  sizes = refl;
}
step_at-Sinks zero (t ∷ ts) p h = run_in_thread-Sinks t ts p h
step_at-Sinks (suc j) (t ∷ ts) p h =
    let m = step_at-Sinks j ts p h in
    record {
      stopped = m.stopped;
      ranks = later m.ranks;
      limit = omega (arith, m.limit, takers-cons t ts, takers-cons t (step_at j ts p).0);
      sizes = ap suc m.sizes;
    }
  where
    later :
        ((i : ℕ) → rank_at i (step_at j ts p).0 ≤ rank_at i ts - hit j i)
        → (i : ℕ) → rank_at i (t ∷ (step_at j ts p).0) ≤ rank_at i (t ∷ ts) - hit (suc j) i
    later r zero = ground arith
    later r (suc i) = ground (arith, r i)

-- Steps of the threads with these indices, and how many of them are the thread's at `i`.
unfoldable pub run_steps : List ℕ → ThreadPool → ThreadPool
run_steps [] p = p
run_steps (j ∷ js) p = run_steps js (thread_step j p)

unfoldable pub steps_of : ℕ → List ℕ → ℕ
steps_of i [] = 0
steps_of i (j ∷ js) = hit j i + steps_of i js

record Sunk (js : List ℕ) (p p' : ThreadPool) : Type 0 where
  ranks : (i : ℕ) → rank_at i p'.threads ≤ rank_at i p.threads - steps_of i js
  limit : length p'.begun + takers p'.threads ≤ length p.begun + takers p.threads
  sizes : length p'.threads ≡ length p.threads

run_steps-Sunk : (js : List ℕ) (p : ThreadPool) → p.running ≡ false → Sunk js p (run_steps js p)
unfolding run_steps steps_of thread_step
run_steps-Sunk [] p h = record { ranks = λ i. omega arith; limit = omega arith; sizes = refl }
run_steps-Sunk (j ∷ js) p h =
    let m = step_at-Sinks j p.threads p h in
    let n = run_steps-Sunk js (thread_step j p) m.stopped in
    record {
      ranks = λ i. omega (arith, m.ranks i, n.ranks i);
      limit = omega (arith, m.limit, n.limit);
      sizes = n.sizes ∙ m.sizes;
    }

all_gone_of_rank :
    (ts : List Thread) → ((i : ℕ) → i < length ts → rank_at i ts ≡ 0) → all_gone ts ≡ true
unfolding all_gone rank_at rank
all_gone_of_rank [] h = refl
all_gone_of_rank (gone ∷ ts) h = all_gone_of_rank ts (λ i l. h (suc i) (omega arith))
all_gone_of_rank (testing ∷ ts) h = absurd (omega (arith, h 0 (omega arith)))
all_gone_of_rank (taking ∷ ts) h = absurd (omega (arith, h 0 (omega arith)))
all_gone_of_rank (working x ∷ ts) h = absurd (omega (arith, h 0 (omega arith)))

rank_at-le : (i : ℕ) (ts : List Thread) → rank_at i ts ≤ 3
unfolding rank_at rank
rank_at-le i [] = omega arith
rank_at-le zero (gone ∷ ts) = omega arith
rank_at-le zero (testing ∷ ts) = omega arith
rank_at-le zero (taking ∷ ts) = omega arith
rank_at-le zero (working x ∷ ts) = omega arith
rank_at-le (suc i) (t ∷ ts) = rank_at-le i ts

takers-le : (ts : List Thread) → takers ts ≤ length ts
unfolding takers
takers-le [] = omega arith
takers-le (gone ∷ ts) = omega (arith, takers-le ts)
takers-le (testing ∷ ts) = omega (arith, takers-le ts)
takers-le (taking ∷ ts) = omega (arith, takers-le ts)
takers-le (working x ∷ ts) = omega (arith, takers-le ts)

-- Once a pool is stopped and each of its threads takes at least three steps, in any order, all threads have
-- returned, and at most as many tasks as there are threads have begun since.
pub run_steps-stopped :
    (js : List ℕ) (p : ThreadPool)
    → ((i : ℕ) → i < length p.threads → 3 ≤ steps_of i js)
    → let p' = run_steps js (stop_pool p) in
      (all_gone p'.threads ≡ true) × (length p'.begun ≤ length p.begun + length p.threads)
unfolding stop_pool
run_steps-stopped js p h =
    let m = run_steps-Sunk js (stop_pool p) refl in
    (
      all_gone_of_rank (run_steps js (stop_pool p)).threads
          (λ i l. omega (arith, m.ranks i, rank_at-le i p.threads, h i (omega (arith, m.sizes)))),
      omega (arith, m.limit, takers-le p.threads),
    )
