-- ===== src/EventLoop/Steady.antt =====
-- The queued functors and the wakeup descriptor of a loop in every phase.
use chater.Common.{
  ℕ, ◌+◌, ◌<◌, ◌≡◌, refl, sym, ap, ◌∙◌, subst, Bool, true, false, not, ◌||◌, List, [], ◌∷◌, ◌++◌,
  append_assoc, append-nil, ltb, is_empty, arith, Bool-cases, ◌⊎◌, inl, inr,
}
use chater.EventLoop.{
  Phase, polling, handling, calling, stopped, EventLoop, new_loop, is_calling, wakeup,
  queue_in_loop, run_in_loop, quit_loop, read_wakeups, next_pass, advance_from, advance,
  in_callback, Event, advances, queues_outside, queues_inside, runs_outside, runs_inside,
  quits_outside, quits_inside, loop_step, run_loop,
}

-- The functors that the loop has swapped out and not called yet.
unfoldable pub current : Phase → List ℕ
current polling = []
current handling = []
current (calling fs) = fs
current stopped = []

-- What the wakeup descriptor must tell in a phase, of a request to quit and of pending functors.
abbrev pub IsAwake : Phase → Bool → List ℕ → ℕ → Type 0
IsAwake polling quit pending wakeups =
    ((is_empty pending || ltb 0 wakeups) ≡ true) × ((not quit || ltb 0 wakeups) ≡ true)
IsAwake (calling fs) quit pending wakeups = (is_empty pending || ltb 0 wakeups) ≡ true
IsAwake handling quit pending wakeups = Unit {0}
IsAwake stopped quit pending wakeups = Unit {0}

pub record IsSteady (p : Phase) (l : EventLoop) : Type 0 where
  pub ordered : l.queued ≡ l.ran ++ (current p ++ l.pending_functors)
  pub awake : IsAwake p l.quit l.pending_functors l.wakeups

woken-IsAwake :
    (p : Phase) (quit : Bool) (pending : List ℕ) (wakeups : ℕ)
    → IsAwake p quit pending (wakeups + 1)
woken-IsAwake polling quit pending wakeups = (ground arith, ground arith)
woken-IsAwake handling quit pending wakeups = tt
woken-IsAwake (calling fs) quit pending wakeups = ground arith
woken-IsAwake stopped quit pending wakeups = tt

pushed-ordered :
    (p : Phase) (f : ℕ) (l : EventLoop)
    → l.queued ≡ l.ran ++ (current p ++ l.pending_functors)
    → l.queued ++ f ∷ [] ≡ l.ran ++ (current p ++ (l.pending_functors ++ f ∷ []))
pushed-ordered p f l o =
    ap (λ t. t ++ f ∷ []) o
    ∙ append_assoc l.ran (current p ++ l.pending_functors) (f ∷ [])
    ∙ ap (λ t. l.ran ++ t) (append_assoc (current p) l.pending_functors (f ∷ []))

next_pass-IsSteady :
    (b : Bool) (l : EventLoop)
    → l.quit ≡ b
    → IsSteady (calling []) l
    → let l' = next_pass l in IsSteady l'.phase l'
unfolding next_pass current
next_pass-IsSteady true l q s = rw q (record { ordered = s.ordered; awake = tt })
next_pass-IsSteady false l q s =
    rw q (record { ordered = s.ordered; awake = (s.awake, ground (arith, q)) })

advance-IsSteady :
    (p : Phase) (l : EventLoop)
    → l.phase ≡ p
    → IsSteady p l
    → let l' = advance_from p l in IsSteady l'.phase l'
unfolding advance_from read_wakeups current
advance-IsSteady polling l e s = elim (Bool-cases (ltb 0 l.wakeups)) [
  | inl woken ↦ rw woken (record { ordered = s.ordered; awake = tt })
  | inr quiet ↦ rw quiet (record { ordered = s.ordered; awake = tt })
]
advance-IsSteady handling l e s = record {
  ordered = s.ordered ∙ ap (λ t. l.ran ++ t) (sym (append-nil l.pending_functors));
  awake = refl;
}
advance-IsSteady (calling (f ∷ fs)) l e s = record {
  ordered = s.ordered ∙ sym (append_assoc l.ran (f ∷ []) (fs ++ l.pending_functors));
  awake = s.awake;
}
advance-IsSteady (calling []) l e s = next_pass-IsSteady l.quit l refl s
advance-IsSteady stopped l e s = subst (λ p. IsSteady p l) (sym e) s

-- A push, with a wakeup.
woken-IsSteady :
    (f : ℕ) (l : EventLoop)
    → IsSteady l.phase l
    → let l' = record l {
      pending_functors = l.pending_functors ++ f ∷ [];
      queued = l.queued ++ f ∷ [];
      wakeups = l.wakeups + 1;
    } in
      IsSteady l'.phase l'
woken-IsSteady f l s = record {
  ordered = pushed-ordered l.phase f l s.ordered;
  awake = woken-IsAwake l.phase l.quit (l.pending_functors ++ f ∷ []) l.wakeups;
}

-- A push by a callback, which needs none.
handled-IsSteady :
    (p : Phase) (f : ℕ) (l : EventLoop)
    → l.phase ≡ p
    → in_callback p ≡ true
    → IsSteady l.phase l
    → let l' = queue_in_loop true f l in IsSteady l'.phase l'
unfolding queue_in_loop wakeup in_callback is_calling
handled-IsSteady polling f l e c s = absurd (ground arith)
handled-IsSteady stopped f l e c s = absurd (ground arith)
handled-IsSteady (calling fs) f l e c s = rw e (
    let s' = subst (λ p. IsSteady p l) e s in
    record {
      ordered = pushed-ordered (calling fs) f l s'.ordered;
      awake = woken-IsAwake (calling fs) l.quit (l.pending_functors ++ f ∷ []) l.wakeups;
    })
handled-IsSteady handling f l e c s = rw e (
    let s' = subst (λ p. IsSteady p l) e s in
    record { ordered = pushed-ordered handling f l s'.ordered; awake = tt })

quitting-IsAwake :
    (p : Phase) (quit : Bool) (pending : List ℕ) (wakeups : ℕ)
    → in_callback p ≡ true
    → IsAwake p quit pending wakeups
    → IsAwake p true pending wakeups
unfolding in_callback
quitting-IsAwake polling quit pending wakeups c a = absurd (ground arith)
quitting-IsAwake handling quit pending wakeups c a = tt
quitting-IsAwake (calling fs) quit pending wakeups c a = a
quitting-IsAwake stopped quit pending wakeups c a = tt

loop_step-IsSteady :
    (e : Event) (l : EventLoop)
    → IsSteady l.phase l
    → let l' = loop_step e l in IsSteady l'.phase l'
unfolding loop_step advance queue_in_loop run_in_loop quit_loop wakeup
loop_step-IsSteady advances l s = advance-IsSteady l.phase l refl s
loop_step-IsSteady (queues_outside f) l s = woken-IsSteady f l s
loop_step-IsSteady (queues_inside f) l s = elim (Bool-cases (in_callback l.phase)) [
  | inl inside ↦ rw inside (handled-IsSteady l.phase f l refl inside s)
  | inr outside ↦ rw outside s
]
loop_step-IsSteady (runs_outside f) l s = woken-IsSteady f l s
loop_step-IsSteady (runs_inside f) l s = elim (Bool-cases (in_callback l.phase)) [
  | inl inside ↦ rw inside (record { ordered = s.ordered; awake = s.awake })
  | inr outside ↦ rw outside s
]
loop_step-IsSteady quits_outside l s = record {
  ordered = s.ordered;
  awake = woken-IsAwake l.phase true l.pending_functors l.wakeups;
}
loop_step-IsSteady quits_inside l s = elim (Bool-cases (in_callback l.phase)) [
  | inl inside ↦ rw inside (record {
    ordered = s.ordered;
    awake = quitting-IsAwake l.phase l.quit l.pending_functors l.wakeups inside s.awake;
  })
  | inr outside ↦ rw outside s
]

run_loop-IsSteady :
    (es : List Event) (l : EventLoop)
    → IsSteady l.phase l
    → let l' = run_loop es l in IsSteady l'.phase l'
unfolding run_loop
run_loop-IsSteady [] l s = s
run_loop-IsSteady (e ∷ es) l s = run_loop-IsSteady es (loop_step e l) (loop_step-IsSteady e l s)

new_loop-IsSteady : IsSteady new_loop.phase new_loop
unfolding new_loop current
new_loop-IsSteady = record { ordered = refl; awake = (refl, refl) }

-- In every state that a loop reaches from its start, by its own steps and by calls of `RunInLoop`,
-- `QueueInLoop` and `Quit` from its callbacks, its functors and other threads: the functors queued so far are
-- those called, in the same order, then those swapped out, then those pending.
pub run_loop-order :
    (es : List Event)
    → let l = run_loop es new_loop in l.queued ≡ l.ran ++ (current l.phase ++ l.pending_functors)
run_loop-order es = (run_loop-IsSteady es new_loop new_loop-IsSteady).ordered

-- In every state that a loop reaches from its start, by its own steps and by calls of `RunInLoop`, `QueueInLoop`
-- and `Quit` from its callbacks, its functors and other threads, and in which it waits in `Poll`, when
-- a functor is pending or the loop was told to quit, the wakeup descriptor has been written to and not
-- been read since: no wakeup is lost.
pub run_loop-wakeup :
    (es : List Event)
    → let l = run_loop es new_loop in
      l.phase ≡ polling → (is_empty l.pending_functors ≡ false) ⊎ (l.quit ≡ true) → 0 < l.wakeups
run_loop-wakeup es waiting asked =
    woken (subst (λ p. IsAwake p l.quit l.pending_functors l.wakeups) waiting s.awake) asked
  where
    l : EventLoop
    l = run_loop es new_loop

    s : IsSteady l.phase l
    s = run_loop-IsSteady es new_loop new_loop-IsSteady

    woken :
        IsAwake polling l.quit l.pending_functors l.wakeups
        → (is_empty l.pending_functors ≡ false) ⊎ (l.quit ≡ true)
        → 0 < l.wakeups
    woken a (inl pending) = ground (arith, a.0, pending)
    woken a (inr quit) = ground (arith, a.1, quit)
