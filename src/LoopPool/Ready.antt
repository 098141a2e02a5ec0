-- ===== src/LoopPool/Ready.antt =====
-- `EventLoopThreadPool::GetNextLoop` on a pool that is started.
use chater.Common.{
  ℕ, zero, suc, ◌+◌, ◌<◌, ◌≡◌, refl, ◌⊎◌, inl, inr, true, false, some, List, [], ◌∷◌, leb,
  Bool-cases, arith, length, is_empty,
}
use chater.LoopPool.{LoopPool, loop_at, step_next, get_next_loop}

-- The pool is started and the index of the next loop is one of the loops, if there are any.
abbrev pub IsReady : LoopPool → Type 0
IsReady p = (p.started ≡ true) × ((p.loops ≡ []) ⊎ (p.next < length p.loops))

loop_at-Succeeds : (ls : List ℕ) (i : ℕ) → i < length ls → (l : ℕ) × (loop_at ls i ≡ some l)
unfolding loop_at
loop_at-Succeeds [] i h = absurd (omega arith)
loop_at-Succeeds (l ∷ ls) zero h = (l, refl)
loop_at-Succeeds (l ∷ ls) (suc i) h = loop_at-Succeeds ls i (omega arith)

step_next-lt : (i : ℕ) (ls : List ℕ) → i < length ls → step_next i ls < length ls
unfolding step_next
step_next-lt i ls h = elim (Bool-cases (leb (length ls) (i + 1))) [
  | inl wraps ↦ rw wraps (omega arith)
  | inr more ↦ ground arith
]

not_empty : (ls : List ℕ) (i : ℕ) → i < length ls → is_empty ls ≡ false
not_empty [] i h = absurd (omega arith)
not_empty (l ∷ ls) i h = refl

-- A loop is given out, and the pool stays ready.
pub get_next_loop-Succeeds :
    (p : LoopPool)
    → IsReady p
    → (l : ℕ) × (p' : LoopPool) × (get_next_loop p ≡ some (l, p'))
      × IsReady p'
      × (p'.base_loop ≡ p.base_loop)
unfolding get_next_loop
get_next_loop-Succeeds p (started, inl alone) =
    (p.base_loop, p, simp (get_next_loop, started, alone) refl, (started, inl alone), refl)
get_next_loop-Succeeds p (started, inr many) =
    let (l, found) = loop_at-Succeeds p.loops p.next many in
    (
      l,
      record p { next = step_next p.next p.loops },
      simp (get_next_loop, started, not_empty p.loops p.next many, found) refl,
      (started, inr (step_next-lt p.next p.loops many)),
      refl,
    )
