-- ===== src/LoopPool.antt =====
-- HPGateway/src/net/EventLoopThreadPool.h and EventLoopThreadPool.cpp: which loop a new connection gets.
-- A loop is known by a reference; the methods run in the base loop's thread.
pub mod Round
pub mod Ready
mod Tests
use chater.Common.{
  ℕ, zero, suc, ◌+◌, ◌%◌, ◌≡◌, Bool, true, false, not, Option, none, some, List, [], ◌∷◌,
  if◌then◌else◌, leb, length, is_empty, ◌>>=◌, ◌>>◌, assert,
}

pub record LoopPool : Type 0 where
  pub base_loop : ℕ
  pub started : Bool
  pub next : ℕ
  pub loops : List ℕ

unfoldable pub new_loop_pool : ℕ → LoopPool
new_loop_pool base = record { base_loop = base; started = false; next = 0; loops = [] }

-- `Start`, with the loops of the threads that it starts.
unfoldable pub start : List ℕ → LoopPool → Option LoopPool
start loops p = do assert (not p.started); some (record p { started = true; loops = loops })

-- `loops_[i]`; beyond the end it is undefined.
unfoldable pub loop_at : List ℕ → ℕ → Option ℕ
loop_at [] i = none
loop_at (l ∷ ls) zero = some l
loop_at (l ∷ ls) (suc i) = loop_at ls i

-- `next_` after one more loop was given out.
unfoldable pub step_next : ℕ → List ℕ → ℕ
step_next next loops = if leb (length loops) (next + 1) then 0 else next + 1

unfoldable pub get_next_loop : LoopPool → Option (ℕ × LoopPool)
unfolding step_next
get_next_loop p = do
  assert p.started
  if is_empty p.loops then some (p.base_loop, p) else (do
    loop ← loop_at p.loops p.next
    some (loop, record p { next = step_next p.next p.loops }))

unfoldable pub get_loop_for_hash : ℕ → LoopPool → Option ℕ
get_loop_for_hash hash_code p =
    if is_empty p.loops then some p.base_loop else loop_at p.loops (hash_code % length p.loops)

unfoldable pub get_all_loops : LoopPool → Option (List ℕ)
get_all_loops p = do assert p.started; some (if is_empty p.loops then p.base_loop ∷ [] else p.loops)

-- Some calls of `GetNextLoop` in a row.
unfoldable pub get_next_loops : ℕ → LoopPool → Option (List ℕ × LoopPool)
get_next_loops zero p = some ([], p)
get_next_loops (suc n) p = do
  (loop, p') ← get_next_loop p
  (rest, p'') ← get_next_loops n p'
  some (loop ∷ rest, p'')
