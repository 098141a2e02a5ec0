-- ===== src/Pool/Tasks.antt =====
-- The invariant of the queue, the workers and the notes of the pool, at one worker's step.
use chater.Common.{
  ℕ, zero, suc, ◌+◌, ◌≡◌, refl, sym, ap, ◌∙◌, Bool, true, false, ◌||◌, List, [], ◌∷◌, ◌++◌,
  append_assoc, if◌then◌else◌, ◌==◌, arith,
}
use chater.Pool.{Worker, idle, working, gone, ThreadPool, wake, worker_loop, turn_at}

-- How often a task stands in a list, and how many workers run it.
unfoldable pub count : ℕ → List ℕ → ℕ
count t [] = 0
count t (x ∷ xs) = (if x == t then 1 else 0) + count t xs

unfoldable pub in_hand : ℕ → List Worker → ℕ
in_hand t [] = 0
in_hand t (working x ∷ ws) = (if x == t then 1 else 0) + in_hand t ws
in_hand t (idle ∷ ws) = in_hand t ws
in_hand t (gone ∷ ws) = in_hand t ws

pub count-append : (t : ℕ) (xs ys : List ℕ) → count t (xs ++ ys) ≡ count t xs + count t ys
unfolding count
count-append t [] ys = omega arith
count-append t (x ∷ xs) ys = omega (arith, count-append t xs ys)

-- A worker has returned.
unfoldable pub some_gone : List Worker → Bool
some_gone [] = false
some_gone (gone ∷ ws) = true
some_gone (idle ∷ ws) = some_gone ws
some_gone (working t ∷ ws) = some_gone ws

-- What holds of a pool, with how many workers run a task and whether one has returned.
pub record IsSound (hand : ℕ → ℕ) (ended : Bool) (p : ThreadPool) : Type 0 where
  pub fifo : p.accepted ≡ p.started ++ p.tasks
  pub in_progress : (t : ℕ) → count t p.started ≡ count t p.finished + hand t
  pub drained : ended ≡ true → (p.running ≡ false) × (p.tasks ≡ [])

-- Between two steps.
abbrev pub IsSafe : ThreadPool → Type 0
IsSafe p = IsSound (λ t. in_hand t p.workers) (some_gone p.workers) p

pub IsSound-same :
    (h h' : ℕ → ℕ) (e e' : Bool) (p : ThreadPool)
    → ((t : ℕ) → h t ≡ h' t)
    → e ≡ e'
    → IsSound h e p
    → IsSound h' e' p
IsSound-same h h' e e' p hs es s = record {
  fifo = s.fifo;
  in_progress = λ t. omega (arith, s.in_progress t, hs t);
  drained = λ ended. s.drained (es ∙ ended);
}

waiting-IsSound :
    (h : ℕ → ℕ) (e b : Bool) (p : ThreadPool)
    → p.running ≡ b
    → p.tasks ≡ []
    → IsSound (λ t. h t + 0) e p
    → let w = if b then idle else gone in
      IsSound (λ t. h t + in_hand t (w ∷ [])) (some_gone (w ∷ []) || e) p
unfolding in_hand some_gone
waiting-IsSound h e true p r q s = s
waiting-IsSound h e false p r q s = record {
  fifo = s.fifo;
  in_progress = s.in_progress;
  drained = λ ended. (r, q);
}

wake-IsSound :
    (h : ℕ → ℕ) (e : Bool) (ts : List ℕ) (p : ThreadPool)
    → p.tasks ≡ ts
    → IsSound (λ t. h t + 0) e p
    → let (w', p') = wake ts p in
      IsSound (λ t. h t + in_hand t (w' ∷ [])) (some_gone (w' ∷ []) || e) p'
unfolding wake in_hand some_gone count
wake-IsSound h e [] p q s = waiting-IsSound h e p.running p refl q s
wake-IsSound h e (x ∷ xs) p q s = record {
  fifo = s.fifo ∙ ap (λ ts. p.started ++ ts) q ∙ sym (append_assoc p.started (x ∷ []) xs);
  in_progress = λ t. omega (arith, s.in_progress t, count-append t p.started (x ∷ []));
  drained = λ ended. absurd (ground (arith, s.drained ended, q));
}

worker_loop-IsSound :
    (h : ℕ → ℕ) (e : Bool) (w : Worker) (p : ThreadPool)
    → IsSound (λ t. h t + in_hand t (w ∷ [])) (some_gone (w ∷ []) || e) p
    → let (w', p') = worker_loop w p in
      IsSound (λ t. h t + in_hand t (w' ∷ [])) (some_gone (w' ∷ []) || e) p'
unfolding worker_loop wake in_hand some_gone count
worker_loop-IsSound h e idle p s = wake-IsSound h e p.tasks p refl s
worker_loop-IsSound h e (working x) p s = record {
  fifo = s.fifo;
  in_progress = λ t. omega (arith, s.in_progress t, count-append t p.finished (x ∷ []));
  drained = s.drained;
}
worker_loop-IsSound h e gone p s = s

pub or_false : (b : Bool) → (b || false) ≡ b
or_false true = refl
or_false false = refl

in_hand-cons :
    (t : ℕ) (w : Worker) (ws : List Worker) → in_hand t (w ∷ ws) ≡ in_hand t (w ∷ []) + in_hand t ws
unfolding in_hand
in_hand-cons t idle ws = omega arith
in_hand-cons t (working x) ws = omega arith
in_hand-cons t gone ws = omega arith

some_gone-cons :
    (w : Worker) (ws : List Worker) (e : Bool)
    → (some_gone ws || (some_gone (w ∷ []) || e)) ≡ (some_gone (w ∷ ws) || e)
unfolding some_gone
some_gone-cons idle ws e = refl
some_gone-cons (working x) ws e = refl
some_gone-cons gone ws e = ground arith

some_gone-first :
    (w : Worker) (ws : List Worker) (e : Bool)
    → (some_gone (w ∷ []) || (some_gone ws || e)) ≡ (some_gone (w ∷ ws) || e)
unfolding some_gone
some_gone-first idle ws e = refl
some_gone-first (working x) ws e = refl
some_gone-first gone ws e = refl

-- The workers behind the one that takes the step count as part of the rest.
parted :
    (h : ℕ → ℕ) (e : Bool) (w : Worker) (ws : List Worker) (p : ThreadPool)
    → IsSound (λ t. h t + in_hand t (w ∷ ws)) (some_gone (w ∷ ws) || e) p
    → IsSound
        (λ t. h t + in_hand t ws + in_hand t (w ∷ []))
        (some_gone (w ∷ []) || (some_gone ws || e))
        p
parted h e w ws p s =
    IsSound-same (λ t. h t + in_hand t (w ∷ ws)) (λ t. h t + in_hand t ws + in_hand t (w ∷ []))
      (some_gone (w ∷ ws) || e) (some_gone (w ∷ []) || (some_gone ws || e)) p
      (λ t. omega (arith, in_hand-cons t w ws)) (sym (some_gone-first w ws e)) s

joined :
    (h : ℕ → ℕ) (e : Bool) (w : Worker) (ws : List Worker) (p : ThreadPool)
    → IsSound
        (λ t. h t + in_hand t ws + in_hand t (w ∷ []))
        (some_gone (w ∷ []) || (some_gone ws || e))
        p
    → IsSound (λ t. h t + in_hand t (w ∷ ws)) (some_gone (w ∷ ws) || e) p
joined h e w ws p s =
    IsSound-same (λ t. h t + in_hand t ws + in_hand t (w ∷ [])) (λ t. h t + in_hand t (w ∷ ws))
      (some_gone (w ∷ []) || (some_gone ws || e)) (some_gone (w ∷ ws) || e) p
      (λ t. omega (arith, in_hand-cons t w ws)) (some_gone-first w ws e) s

pub turn_at-IsSound :
    (h : ℕ → ℕ) (e : Bool) (i : ℕ) (ws : List Worker) (p : ThreadPool)
    → IsSound (λ t. h t + in_hand t ws) (some_gone ws || e) p
    → let (ws', p') = turn_at i ws p in IsSound (λ t. h t + in_hand t ws') (some_gone ws' || e) p'
unfolding turn_at
turn_at-IsSound h e i [] p s = s
turn_at-IsSound h e zero (w ∷ ws) p s =
    let (w', p') = worker_loop w p in
    joined h e w' ws p'
      (worker_loop-IsSound (λ t. h t + in_hand t ws) (some_gone ws || e) w p (parted h e w ws p s))
turn_at-IsSound h e (suc i) (w ∷ ws) p s =
    let (ws', p') = turn_at i ws p in
    IsSound-same (λ t. h t + in_hand t (w ∷ []) + in_hand t ws') (λ t. h t + in_hand t (w ∷ ws'))
      (some_gone ws' || (some_gone (w ∷ []) || e)) (some_gone (w ∷ ws') || e) p'
      (λ t. omega (arith, in_hand-cons t w ws')) (some_gone-cons w ws' e)
      (turn_at-IsSound (λ t. h t + in_hand t (w ∷ [])) (some_gone (w ∷ []) || e) i ws p
        (IsSound-same (λ t. h t + in_hand t (w ∷ ws)) (λ t. h t + in_hand t (w ∷ []) + in_hand t ws)
          (some_gone (w ∷ ws) || e) (some_gone ws || (some_gone (w ∷ []) || e)) p
          (λ t. omega (arith, in_hand-cons t w ws)) (sym (some_gone-cons w ws e)) s))
