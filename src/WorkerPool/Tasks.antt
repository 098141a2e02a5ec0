-- ===== src/WorkerPool/Tasks.antt =====
-- Where the tasks of a pool (HPGateway/src/base/ThreadPool.cpp) are.
use chater.Common.{
  ℕ, zero, suc, ◌+◌, ◌≡◌, refl, sym, ap, ◌∙◌, Bool, true, false, inl, inr, Option, none, some, List,
  [], ◌∷◌, ◌++◌, append_assoc, append-nil, if◌then◌else◌, ◌==◌, arith, Bool-cases, is_empty, length,
  eq_nil_of_length, subst,
}
use chater.Common.Maps.{option-cases, some_injective}
use chater.Pool.Tasks.{count, count-append}
use chater.WorkerPool.{
  Thread, testing, taking, working, gone, ThreadPool, new_threads, start_pool, stop_pool, run_task,
  take_task, run_in_thread, step_at, thread_step, PoolEvent, starts, stops, runs, steps, pool_event,
  pool_events,
}

-- How many threads run a task.
unfoldable pub in_hand : ℕ → List Thread → ℕ
in_hand t [] = 0
in_hand t (working x ∷ ts) = (if x == t then 1 else 0) + in_hand t ts
in_hand t (testing ∷ ts) = in_hand t ts
in_hand t (taking ∷ ts) = in_hand t ts
in_hand t (gone ∷ ts) = in_hand t ts

-- Tasks are begun in the order in which they were given, without threads they are begun at once, and
-- each is finished or in the hands of a thread as often as it was begun.
pub record IsSound (p : ThreadPool) : Type 0 where
  pub fifo : p.accepted ≡ p.begun ++ p.queue
  pub at_once : p.threads ≡ [] → p.queue ≡ []
  pub in_progress : (t : ℕ) → count t p.begun ≡ count t p.finished + in_hand t p.threads

-- What a step of a thread changes, from the pool before it to the pool after it.
record Moves (ts ts' : List Thread) (p p' : ThreadPool) : Type 0 where
  order : p'.begun ++ p'.queue ≡ p.begun ++ p.queue
  same : p'.accepted ≡ p.accepted
  threads_same : p'.threads ≡ p.threads
  balance :
      (t : ℕ)
      → count t p'.begun + (count t p.finished + in_hand t ts)
        ≡ count t p.begun + (count t p'.finished + in_hand t ts')
  sizes : length ts' ≡ length ts
  drains : p.queue ≡ [] → p'.queue ≡ []

idle_Moves :
    (t u : Thread) (ts : List Thread) (p : ThreadPool)
    → ((x : ℕ) → in_hand x (t ∷ ts) ≡ in_hand x (u ∷ ts))
    → Moves (t ∷ ts) (u ∷ ts) p p
idle_Moves t u ts p h = record {
  order = refl;
  same = refl;
  threads_same = refl;
  balance = λ x. ap (λ n. count x p.begun + (count x p.finished + n)) (h x);
  sizes = refl;
  drains = λ e. e;
}

choose_Moves :
    (b : Bool) (t u v : Thread) (ts : List Thread) (p : ThreadPool)
    → Moves (v ∷ ts) (t ∷ ts) p p
    → Moves (v ∷ ts) (u ∷ ts) p p
    → Moves (v ∷ ts) ((if b then t else u) ∷ ts) p p
choose_Moves true t u v ts p h k = h
choose_Moves false t u v ts p h k = k

take_task-Moves :
    (q : List ℕ) (ts : List Thread) (p : ThreadPool)
    → p.queue ≡ q
    → Moves (taking ∷ ts) ((take_task q p).0 ∷ ts) p (take_task q p).1
unfolding take_task in_hand count
take_task-Moves [] ts p e =
    choose_Moves p.running taking testing taking ts p (idle_Moves taking taking ts p (λ x. refl))
      (idle_Moves taking testing ts p (λ x. refl))
take_task-Moves (q ∷ qs) ts p e = record {
  order = append_assoc p.begun (q ∷ []) qs ∙ ap (λ l. p.begun ++ l) (sym e);
  same = refl;
  threads_same = refl;
  balance = λ t. omega (arith, count-append t p.begun (q ∷ []));
  sizes = refl;
  drains = λ n. absurd (omega (arith, ap length e, ap length n));
}

run_in_thread-Moves :
    (t : Thread) (ts : List Thread) (p : ThreadPool)
    → Moves (t ∷ ts) ((run_in_thread t p).0 ∷ ts) p (run_in_thread t p).1
unfolding run_in_thread in_hand count
run_in_thread-Moves testing ts p =
    choose_Moves p.running taking gone testing ts p (idle_Moves testing taking ts p (λ x. refl))
      (idle_Moves testing gone ts p (λ x. refl))
run_in_thread-Moves taking ts p = take_task-Moves p.queue ts p refl
run_in_thread-Moves (working x) ts p = record {
  order = refl;
  same = refl;
  threads_same = refl;
  balance = λ t. omega (arith, count-append t p.finished (x ∷ []));
  sizes = refl;
  drains = λ e. e;
}
run_in_thread-Moves gone ts p = idle_Moves gone gone ts p (λ x. refl)

in_hand-cons :
    (x : ℕ) (t : Thread) (ts : List Thread) → in_hand x (t ∷ ts) ≡ in_hand x (t ∷ []) + in_hand x ts
unfolding in_hand
in_hand-cons x testing ts = omega arith
in_hand-cons x taking ts = omega arith
in_hand-cons x (working y) ts = omega arith
in_hand-cons x gone ts = omega arith

step_at-Moves :
    (i : ℕ) (ts : List Thread) (p : ThreadPool) → Moves ts (step_at i ts p).0 p (step_at i ts p).1
unfolding step_at
step_at-Moves i [] p = record {
  order = refl;
  same = refl;
  threads_same = refl;
  balance = λ x. refl;
  sizes = refl;
  drains = λ e. e;
}
step_at-Moves zero (t ∷ ts) p = run_in_thread-Moves t ts p
step_at-Moves (suc i) (t ∷ ts) p =
    let m = step_at-Moves i ts p in
    record {
      order = m.order;
      same = m.same;
      threads_same = m.threads_same;
      balance =
          λ x. omega (arith, m.balance x, in_hand-cons x t ts, in_hand-cons x t (step_at i ts p).0);
      sizes = ap suc m.sizes;
      drains = m.drains;
    }

thread_step-IsSound : (i : ℕ) (p : ThreadPool) → IsSound p → IsSound (thread_step i p)
unfolding thread_step
thread_step-IsSound i p v =
    let m = step_at-Moves i p.threads p in
    record {
      fifo = m.same ∙ v.fifo ∙ sym m.order;
      at_once = λ e. m.drains (v.at_once (eq_nil_of_length p.threads (sym m.sizes ∙ ap length e)));
      in_progress = λ t. omega (arith, m.balance t, v.in_progress t);
    }

nil_of_is_empty : (ts : List Thread) → is_empty ts ≡ true → ts ≡ []
nil_of_is_empty [] h = refl
nil_of_is_empty (t ∷ ts) h = absurd (ground arith)

at_once_lem :
    (task : ℕ) (p : ThreadPool)
    → IsSound p
    → p.threads ≡ []
    → IsSound (record p {
      accepted = p.accepted ++ task ∷ [];
      begun = p.begun ++ task ∷ [];
      finished = p.finished ++ task ∷ [];
    })
at_once_lem task p v alone = record {
  fifo =
      ap (λ l. l ++ task ∷ [])
        (v.fifo ∙ ap (λ q. p.begun ++ q) (v.at_once alone) ∙ append-nil p.begun)
      ∙ sym (append-nil (p.begun ++ task ∷ []))
      ∙ ap (λ q. (p.begun ++ task ∷ []) ++ q) (sym (v.at_once alone));
  at_once = v.at_once;
  in_progress = λ t. omega (
    arith,
    v.in_progress t,
    count-append t p.begun (task ∷ []),
    count-append t p.finished (task ∷ []),
  );
}

run_task-IsSound : (task : ℕ) (p : ThreadPool) → IsSound p → IsSound (run_task task p)
unfolding run_task
run_task-IsSound task p v = elim (Bool-cases (is_empty p.threads)) [
  | inl alone ↦ rw alone (at_once_lem task p v (nil_of_is_empty p.threads alone))
  | inr threaded ↦ rw threaded (record {
    fifo = ap (λ l. l ++ task ∷ []) v.fifo ∙ append_assoc p.begun p.queue (task ∷ []);
    at_once = λ e. absurd (ground (arith, ap is_empty e, threaded));
    in_progress = v.in_progress;
  })
]

in_hand-append : (t : ℕ) (ts us : List Thread) → in_hand t (ts ++ us) ≡ in_hand t ts + in_hand t us
unfolding in_hand
in_hand-append t [] us = omega arith
in_hand-append t (u ∷ ts) us =
    omega (arith, in_hand-cons t u (ts ++ us), in_hand-cons t u ts, in_hand-append t ts us)

new_threads-in_hand : (t n : ℕ) → in_hand t (new_threads n) ≡ 0
unfolding in_hand new_threads
new_threads-in_hand t zero = refl
new_threads-in_hand t (suc n) = new_threads-in_hand t n

nil_of_append : (ts us : List Thread) → ts ++ us ≡ [] → ts ≡ []
nil_of_append [] us h = refl
nil_of_append (t ∷ ts) us h = absurd (omega (arith, ap length h))

-- An event that fails, or that keeps a pool sound.
abbrev Keeps : Option ThreadPool → Type 0
Keeps none = Unit {0}
Keeps (some p) = IsSound p

start_pool-Keeps : (p : ThreadPool) → IsSound p → Keeps (start_pool p)
unfolding start_pool
start_pool-Keeps p v = elim (Bool-cases p.running) [
  | inl twice ↦ simp (start_pool, twice) tt
  | inr stopped ↦
      simp (start_pool, stopped)
        (record {
          fifo = v.fifo;
          at_once = λ e. v.at_once (nil_of_append p.threads (new_threads p.num_threads) e);
          in_progress = λ t. omega (
            arith,
            v.in_progress t,
            in_hand-append t p.threads (new_threads p.num_threads),
            new_threads-in_hand t p.num_threads,
          );
        })
]

pool_event-Keeps : (e : PoolEvent) (p : ThreadPool) → IsSound p → Keeps (pool_event e p)
unfolding pool_event stop_pool
pool_event-Keeps starts p v = start_pool-Keeps p v
pool_event-Keeps stops p v = record {
  fifo = v.fifo;
  at_once = v.at_once;
  in_progress = v.in_progress;
}
pool_event-Keeps (runs task) p v = run_task-IsSound task p v
pool_event-Keeps (steps i) p v = thread_step-IsSound i p v

-- From any sound pool, over any events that do not start a running pool, in any order: the tasks given to
-- `Run` are those begun, in the same order, and those that still wait in the queue; and each task has been
-- finished or is in the hands of a thread exactly as often as it was begun.
pub pool_events-IsSound :
    (es : List PoolEvent) (p p' : ThreadPool) → IsSound p → pool_events es p ≡ some p' → IsSound p'
unfolding pool_events
pool_events-IsSound [] p p' v e = subst IsSound (some_injective p p' e) v
pool_events-IsSound (x ∷ es) p p' v e = elim (option-cases (pool_event x p)) [
  | inl fails ↦ absurd (ground (arith, fails, e))
  | inr (q, step) ↦
      pool_events-IsSound es q p' (subst Keeps step (pool_event-Keeps x p v))
        (sym (rw (pool_events, step) refl) ∙ e)
]
