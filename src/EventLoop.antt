-- ===== src/EventLoop.antt =====
-- HPGateway/src/net/EventLoop.h and EventLoop.cpp: the loop, its functors and the wakeup descriptor.
-- A functor is known by a number; those that a channel's callbacks or other threads queue come from
-- outside. A call of a method by another thread is one step between those of the loop.
pub mod Steady
mod Channels
mod Tests
use chater.Common.{
  ℕ, ◌+◌, ◌≡◌, Bool, true, false, not, ◌&&◌, ◌||◌, List, [], ◌∷◌, ◌++◌, if◌then◌else◌, ltb,
}

-- Where the loop is: in `Poll`, in the callbacks of the active channels, in `DoPendingFunctors` with
-- these functors still to call, or outside `Loop`.
pub data Phase : Type 0 where
  polling : Phase
  handling : Phase
  calling : List ℕ → Phase
  stopped : Phase

-- `wakeups` is the count of the wakeup descriptor; `ran` and `queued` note the functors that were
-- called and those that were queued, each in its order, `direct` those that `RunInLoop` called itself.
pub record EventLoop : Type 0 where
  pub phase : Phase
  pub quit : Bool
  pub pending_functors : List ℕ
  pub wakeups : ℕ
  pub ran : List ℕ
  pub queued : List ℕ
  pub direct : List ℕ

-- `Loop` up to its first `Poll`.
unfoldable pub new_loop : EventLoop
new_loop = record {
  phase = polling;
  quit = false;
  pending_functors = [];
  wakeups = 0;
  ran = [];
  queued = [];
  direct = [];
}

-- `callingPendingFunctors_`
unfoldable pub is_calling : Phase → Bool
is_calling polling = false
is_calling handling = false
is_calling (calling fs) = true
is_calling stopped = false

unfoldable pub wakeup : EventLoop → EventLoop
wakeup l = record l { wakeups = l.wakeups + 1 }

-- `QueueInLoop`, in the loop's thread or in another one.
unfoldable pub queue_in_loop : Bool → ℕ → EventLoop → EventLoop
unfolding wakeup is_calling
queue_in_loop in_loop_thread f l =
    let pushed = record l {
      pending_functors = l.pending_functors ++ f ∷ [];
      queued = l.queued ++ f ∷ [];
    } in
    if not in_loop_thread || is_calling l.phase then wakeup pushed else pushed

-- `RunInLoop`.
unfoldable pub run_in_loop : Bool → ℕ → EventLoop → EventLoop
unfolding queue_in_loop
run_in_loop in_loop_thread f l =
    if in_loop_thread then record l { direct = l.direct ++ f ∷ [] } else queue_in_loop false f l

-- `Quit`.
unfoldable pub quit_loop : Bool → EventLoop → EventLoop
unfolding wakeup
quit_loop in_loop_thread l =
    let flagged = record l { quit = true } in if in_loop_thread then flagged else wakeup flagged

-- `HandleRead` of the wakeup channel.
unfoldable pub read_wakeups : EventLoop → EventLoop
read_wakeups l = record l { wakeups = 0 }

-- The test of `while (!quit_)` before the next `Poll`.
unfoldable pub next_pass : EventLoop → EventLoop
next_pass l = if l.quit then record l { phase = stopped } else record l { phase = polling }

-- The loop's own next step. `Poll` returns on a wakeup, on another event or after a timeout; then the
-- callbacks run, the one of the wakeup channel among them if it was written to; then the functors
-- that are pending by then are swapped out and called one by one.
unfoldable pub advance_from : Phase → EventLoop → EventLoop
unfolding read_wakeups next_pass
advance_from polling l =
    if ltb 0 l.wakeups
    then read_wakeups (record l { phase = handling })
    else record l { phase = handling }
advance_from handling l = record l { phase = calling l.pending_functors; pending_functors = [] }
advance_from (calling (f ∷ fs)) l = record l { phase = calling fs; ran = l.ran ++ f ∷ [] }
advance_from (calling []) l = next_pass l
advance_from stopped l = l

unfoldable pub advance : EventLoop → EventLoop
unfolding advance_from
advance l = advance_from l.phase l

-- The loop's thread calls methods of the loop only inside callbacks and functors.
unfoldable pub in_callback : Phase → Bool
in_callback polling = false
in_callback handling = true
in_callback (calling fs) = true
in_callback stopped = false

pub data Event : Type 0 where
  advances : Event
  queues_outside : ℕ → Event
  queues_inside : ℕ → Event
  runs_outside : ℕ → Event
  runs_inside : ℕ → Event
  quits_outside : Event
  quits_inside : Event

unfoldable pub loop_step : Event → EventLoop → EventLoop
loop_step advances l = advance l
loop_step (queues_outside f) l = queue_in_loop false f l
loop_step (queues_inside f) l = if in_callback l.phase then queue_in_loop true f l else l
loop_step (runs_outside f) l = run_in_loop false f l
loop_step (runs_inside f) l = if in_callback l.phase then run_in_loop true f l else l
loop_step quits_outside l = quit_loop false l
loop_step quits_inside l = if in_callback l.phase then quit_loop true l else l

unfoldable pub run_loop : List Event → EventLoop → EventLoop
run_loop [] l = l
run_loop (e ∷ es) l = run_loop es (loop_step e l)
