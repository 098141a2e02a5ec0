-- ===== src/Pool/Drain.antt =====
-- The accepted tasks, in any order of submissions, workers' steps and a closing.
use chater.Common.{
  ℕ, zero, suc, ◌+◌, ◌<◌, ◌≡◌, refl, sym, ap, ◌∙◌, Bool, true, false, ◌||◌, List, [], ◌∷◌, ◌++◌,
  append_assoc, append-nil, if◌then◌else◌, arith, length,
}
use chater.Pool.{
  Worker, idle, working, gone, ThreadPool, idle_workers, new_pool, submit, close, all_gone,
  is_shut_down, turn_at, turn, Event, submits, closes, turns, pool_step, run_pool,
}
use chater.Pool.Tasks.{
  count, in_hand, some_gone, IsSound, IsSafe, IsSound-same, or_false, turn_at-IsSound,
}

turn-IsSafe : (i : ℕ) (p : ThreadPool) → IsSafe p → IsSafe (turn i p)
unfolding turn
turn-IsSafe i p s =
    let (ws', p') = turn_at i p.workers p in
    let after =
      turn_at-IsSound (λ t. 0) false i p.workers p
        (IsSound-same (λ t. in_hand t p.workers) (λ t. 0 + in_hand t p.workers)
          (some_gone p.workers) (some_gone p.workers || false) p (λ t. omega arith)
          (sym (or_false (some_gone p.workers))) s) in
    record {
      fifo = after.fifo;
      in_progress = λ t. omega (arith, after.in_progress t);
      drained = λ ended. after.drained (or_false (some_gone ws') ∙ ended);
    }

submit-IsSafe :
    (task : ℕ) (b : Bool) (p : ThreadPool)
    → p.running ≡ b
    → IsSafe p
    → let q = record p { tasks = p.tasks ++ task ∷ []; accepted = p.accepted ++ task ∷ [] } in
      IsSafe (if◌then◌else◌ {A = Bool × ThreadPool} b (true, q) (false, p)).1
submit-IsSafe task false p r s = s
submit-IsSafe task true p r s = record {
  fifo = ap (λ ts. ts ++ task ∷ []) s.fifo ∙ append_assoc p.started p.tasks (task ∷ []);
  in_progress = s.in_progress;
  drained = λ ended. absurd (ground (arith, (s.drained ended).0, r));
}

pool_step-IsSafe : (e : Event) (p : ThreadPool) → IsSafe p → IsSafe (pool_step e p)
unfolding pool_step submit close
pool_step-IsSafe (submits task) p s = submit-IsSafe task p.running p refl s
pool_step-IsSafe closes p s = record {
  fifo = s.fifo;
  in_progress = s.in_progress;
  drained = λ ended. (refl, (s.drained ended).1);
}
pool_step-IsSafe (turns i) p s = turn-IsSafe i p s

pub run_pool-IsSafe : (es : List Event) (p : ThreadPool) → IsSafe p → IsSafe (run_pool es p)
unfolding run_pool
run_pool-IsSafe [] p s = s
run_pool-IsSafe (e ∷ es) p s = run_pool-IsSafe es (pool_step e p) (pool_step-IsSafe e p s)

new_pool-IsSafe : (n : ℕ) → IsSafe (new_pool n)
unfolding new_pool idle_workers count in_hand some_gone
new_pool-IsSafe n = record {
  fifo = refl;
  in_progress = λ t. omega (arith, none_in_hand n t);
  drained = λ ended. absurd (ground (arith, none_gone n));
}
  where
    none_in_hand : (n t : ℕ) → in_hand t (idle_workers n) ≡ 0
    none_in_hand zero t = refl
    none_in_hand (suc n) t = none_in_hand n t

    none_gone : (n : ℕ) → some_gone (idle_workers n) ≡ false
    none_gone zero = refl
    none_gone (suc n) = none_gone n

-- After any sequence of submissions, steps of the workers and a closing, the tasks accepted so far are
-- those that workers have started, in the order of submission, followed by those that wait.
pub run_pool-fifo :
    (n : ℕ) (es : List Event)
    → let p = run_pool es (new_pool n) in p.accepted ≡ p.started ++ p.tasks
run_pool-fifo n es = let safe = run_pool-IsSafe es (new_pool n) (new_pool-IsSafe n) in safe.fifo

turn_at-length : (i : ℕ) (ws : List Worker) (p : ThreadPool) → length (turn_at i ws p).0 ≡ length ws
unfolding turn_at
turn_at-length i [] p = refl
turn_at-length zero (w ∷ ws) p = refl
turn_at-length (suc i) (w ∷ ws) p = omega (arith, turn_at-length i ws p)

run_pool-workers :
    (es : List Event) (p : ThreadPool) → length (run_pool es p).workers ≡ length p.workers
unfolding run_pool pool_step submit close turn
run_pool-workers [] p = refl
run_pool-workers (submits t ∷ es) p = run_pool-workers es (pool_step (submits t) p) ∙ ground arith
run_pool-workers (closes ∷ es) p = run_pool-workers es (pool_step closes p)
run_pool-workers (turns i ∷ es) p =
    run_pool-workers es (pool_step (turns i) p) ∙ turn_at-length i p.workers p

length-idle_workers : (n : ℕ) → length (new_pool n).workers ≡ n
unfolding new_pool idle_workers
length-idle_workers zero = refl
length-idle_workers (suc n) = omega (arith, length-idle_workers n)

all_gone_lem :
    (w : Worker) (ws : List Worker)
    → all_gone (w ∷ ws) ≡ true
    → (some_gone (w ∷ ws) ≡ true) × ((t : ℕ) → in_hand t (w ∷ ws) ≡ 0)
unfolding all_gone some_gone in_hand
all_gone_lem gone ws h = (refl, λ t. nothing t ws h)
  where
    nothing : (t : ℕ) (ws : List Worker) → all_gone ws ≡ true → in_hand t ws ≡ 0
    nothing t [] h = refl
    nothing t (gone ∷ ws) h = nothing t ws h
    nothing t (idle ∷ ws) h = absurd (ground arith)
    nothing t (working x ∷ ws) h = absurd (ground arith)
all_gone_lem idle ws h = absurd (ground arith)
all_gone_lem (working x) ws h = absurd (ground arith)

drained_lem :
    (ws : List Worker) (p : ThreadPool) (t : ℕ)
    → IsSound (λ t. in_hand t ws) (some_gone ws) p
    → 0 < length ws
    → all_gone ws ≡ true
    → (p.tasks ≡ []) × (count t p.finished ≡ count t p.accepted)
drained_lem [] p t s h g = absurd (omega arith)
drained_lem (w ∷ ws) p t s h g =
    let (one_gone, free) = all_gone_lem w ws g in
    let (closed, empty) = s.drained one_gone in
    (
      empty,
      omega (
        arith,
        s.in_progress t,
        free t,
        ap (count t) (s.fifo ∙ ap (λ ts. p.started ++ ts) empty ∙ append-nil p.started),
      ),
    )

-- A pool of one thread or more that is shut down, so that all joins have returned, has finished every
-- task that it accepted, as often as it was accepted, and none waits.
pub run_pool-drains :
    (n : ℕ) (es : List Event) (t : ℕ)
    → 0 < n
    → let p = run_pool es (new_pool n) in
      is_shut_down p ≡ true → (p.tasks ≡ []) × (count t p.finished ≡ count t p.accepted)
unfolding is_shut_down
run_pool-drains n es t some_thread down =
    drained_lem (run_pool es (new_pool n)).workers (run_pool es (new_pool n)) t
      (run_pool-IsSafe es (new_pool n) (new_pool-IsSafe n))
      (omega (arith, run_pool-workers es (new_pool n), length-idle_workers n, some_thread))
      (ground (arith, down))
