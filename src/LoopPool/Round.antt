-- ===== src/LoopPool/Round.antt =====
-- A round of calls of `EventLoopThreadPool::GetNextLoop`.
use chater.Common.{
  ℕ, suc, ◌+◌, ◌<◌, ◌≡◌, refl, sym, ap, ◌∙◌, true, false, some, List, [], ◌∷◌, ◌++◌, append_assoc,
  if◌then◌else◌, ◌==◌, length, length-append, is_empty, arith,
}
use chater.LoopPool.{LoopPool, loop_at, step_next, get_next_loop, get_next_loops}

loop_at-middle : (xs : List ℕ) (y : ℕ) (ys : List ℕ) → loop_at (xs ++ y ∷ ys) (length xs) ≡ some y
unfolding loop_at
loop_at-middle [] y ys = refl
loop_at-middle (x ∷ xs) y ys = loop_at-middle xs y ys

not_empty : (xs : List ℕ) (y : ℕ) (ys : List ℕ) → is_empty (xs ++ y ∷ ys) ≡ false
not_empty [] y ys = refl
not_empty (x ∷ xs) y ys = refl

-- One call, with these loops before the one that is due and these behind it.
get_next_loop_lem :
    (done : List ℕ) (l : ℕ) (todo : List ℕ) (p : LoopPool)
    → p.started ≡ true
    → p.loops ≡ done ++ l ∷ todo
    → p.next ≡ length done
    → get_next_loop p ≡ some (l, record p { next = if length todo == 0 then 0 else p.next + 1 })
unfolding get_next_loop step_next
get_next_loop_lem done l todo p s e n = ground (
  arith,
  ap (is_empty {A = ℕ}) e ∙ not_empty done l todo,
  ap (λ ls. loop_at ls p.next) e ∙ ap (loop_at (done ++ l ∷ todo)) n ∙ loop_at-middle done l todo,
  ap (length {A = ℕ}) e ∙ length-append done (l ∷ todo),
)

-- The calls that are left in a round, from any place in it.
rest_of_round :
    (done todo : List ℕ) (p : LoopPool)
    → p.started ≡ true
    → p.loops ≡ done ++ todo
    → 0 < length todo
    → p.next ≡ length done
    → get_next_loops (length todo) p ≡ some (todo, record p { next = 0 })
unfolding get_next_loops
rest_of_round done [] p s e h n = absurd (omega arith)
rest_of_round done (l ∷ []) p s e h n = rw (get_next_loop_lem done l [] p s e n) refl
rest_of_round done (l ∷ k ∷ ls) p s e h n =
    let rest =
      rest_of_round (done ++ l ∷ []) (k ∷ ls) (record p { next = p.next + 1 }) s
        (e ∙ sym (append_assoc done (l ∷ []) (k ∷ ls))) (omega arith)
        (omega (arith, n, length-append done (l ∷ []))) in
    rw (get_next_loop_lem done l (k ∷ ls) p s e n, positive (length ls), rest) refl
  where
    positive : (n : ℕ) → (suc n == 0) ≡ false
    positive n = ground arith

-- A started pool with at least one thread, about to give out the first loop, gives out each loop once,
-- in order, in as many calls of `GetNextLoop` as there are loops, and is then where it was.
pub get_next_loops-round :
    (p : LoopPool)
    → p.started ≡ true
    → 0 < length p.loops
    → p.next ≡ 0
    → get_next_loops (length p.loops) p ≡ some (p.loops, record p { next = 0 })
get_next_loops-round p s h n = rest_of_round [] p.loops p s refl h n
