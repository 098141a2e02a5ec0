-- ===== src/Pool/Halts.antt =====
-- How far a closed pool is from the end of its joins.
use chater.Common.{
  ℕ, zero, suc, ◌+◌, ◌*◌, ◌≤◌, ◌≡◌, refl, ap, true, false, List, [], ◌∷◌, length, map, arith,
  Bool-cases, inl, inr,
}
use chater.Pool.{
  Worker, idle, working, gone, ThreadPool, new_pool, close, all_gone, is_shut_down, wake,
  worker_loop, turn_at, turn, Event, turns, pool_step, run_pool,
}

-- The steps that a worker has left, and all of them with two for each task that waits.
unfoldable pub weight : List Worker → ℕ
weight [] = 0
weight (idle ∷ ws) = 1 + weight ws
weight (working t ∷ ws) = 2 + weight ws
weight (gone ∷ ws) = weight ws

unfoldable pub distance : List Worker → ThreadPool → ℕ
unfolding weight
distance ws p = weight ws + 2 * length p.tasks

-- A worker that waits in a closed pool.
wake_lem :
    (ts : List ℕ) (p : ThreadPool) (ws : List Worker)
    → p.running ≡ false
    → p.tasks ≡ ts
    → let (w', p') = wake ts p in
      (distance (w' ∷ ws) p' + 1 ≡ distance (idle ∷ ws) p) × (p'.running ≡ false)
unfolding wake distance weight
wake_lem [] p ws c e = (rw c (omega arith), c)
wake_lem (t ∷ ts) p ws c e = (omega (arith, ap length e), c)

-- While a worker of a closed pool has not returned, one of them takes a step towards that.
effective_step :
    (ws : List Worker) (p : ThreadPool)
    → p.running ≡ false
    → all_gone ws ≡ false
    → (i : ℕ) × let (ws', p') = turn_at i ws p in
        (distance ws' p' + 1 ≡ distance ws p) × (p'.running ≡ false)
unfolding turn_at worker_loop all_gone distance weight
effective_step [] p c h = absurd (ground arith)
effective_step (idle ∷ ws) p c h = (0, wake_lem p.tasks p ws c refl)
effective_step (working t ∷ ws) p c h = (0, (omega arith, c))
effective_step (gone ∷ ws) p c h =
    let (i, less) = effective_step ws p c h in (suc i, (omega (arith, less.0), less.1))

finish :
    (k : ℕ) (p : ThreadPool)
    → p.running ≡ false
    → distance p.workers p ≤ k
    → (is : List ℕ) × (length is ≤ k) × (is_shut_down (run_pool (map turns is) p) ≡ true)
unfolding run_pool pool_step turn is_shut_down distance
finish zero p c d = elim (Bool-cases (all_gone p.workers)) [
  | inl over ↦ ([], omega arith, ground (arith, c, over))
  | inr busy ↦ let (i, less) = effective_step p.workers p c busy in absurd (omega (arith, less.0))
]
finish (suc k) p c d = elim (Bool-cases (all_gone p.workers)) [
  | inl over ↦ ([], omega arith, ground (arith, c, over))
  | inr busy ↦
      let (i, less) = effective_step p.workers p c busy in
      let (is, short, over) = finish k (turn i p) less.1 (omega (arith, less.0)) in
      (i ∷ is, omega (arith, short), over)
]

-- From any state that a pool reaches, once it is closed, steps of its workers bring it to the end of
-- all joins, at most one for each worker, another one for each task in hand, and two for each task
-- that waits: `Shutdown` cannot get stuck.
pub run_pool-shuts_down :
    (n : ℕ) (es : List Event)
    → let p = close (run_pool es (new_pool n)) in
      (is : List ℕ) × (length is ≤ distance p.workers p)
      × (is_shut_down (run_pool (map turns is) p) ≡ true)
unfolding close
run_pool-shuts_down n es =
    let p = close (run_pool es (new_pool n)) in finish (distance p.workers p) p refl (omega arith)
