-- ===== src/EventLoop/Tests.antt =====
-- Runs of the loop, and its theorems at such runs.
use chater.Common.{◌<◌, ◌≡◌, refl, false, inl, List, [], ◌∷◌, ◌++◌, is_empty}
use chater.EventLoop.{
  polling, Event, advances, queues_inside, new_loop, run_loop, loop_step, advance, advance_from,
  queue_in_loop, wakeup, is_calling, in_callback, next_pass, read_wakeups,
}
use chater.EventLoop.Steady.{current, run_loop-order, run_loop-wakeup}

-- A callback queues 5, its functor queues 6, and the loop goes round once.
abbrev busy : List Event
busy = advances ∷ queues_inside 5 ∷ advances ∷ queues_inside 6 ∷ advances ∷ advances ∷ []

waits : (run_loop busy new_loop).phase ≡ polling
unfolding run_loop loop_step advance advance_from queue_in_loop wakeup is_calling in_callback
    next_pass read_wakeups new_loop
waits = refl

asked : is_empty (run_loop busy new_loop).pending_functors ≡ false
unfolding run_loop loop_step advance advance_from queue_in_loop wakeup is_calling in_callback
    next_pass read_wakeups new_loop
asked = refl

run_loop-order_example :
    let l = run_loop busy new_loop in l.queued ≡ l.ran ++ (current l.phase ++ l.pending_functors)
run_loop-order_example = run_loop-order busy

run_loop-wakeup_example : 0 < (run_loop busy new_loop).wakeups
run_loop-wakeup_example = run_loop-wakeup busy waits (inl asked)
