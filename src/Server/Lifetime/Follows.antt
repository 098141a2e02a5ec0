-- ===== src/Server/Lifetime/Follows.antt =====
-- That a gateway follows the stages of its life, HPGateway/src/gateway/GatewayServer.cpp.
use chater.Common.{
  ℕ, ◌≡◌, refl, Bool, true, false, Bool-cases, inl, inr, sym, ◌==◌, Option, none, some, List, [],
  ◌∷◌, leb, ◌>>=◌, arith, ◌/◌,
}
use chater.Server.Lifetime.{
  Gateway, new_gateway, is_armed, GatewayCall, sets_workers, starts, stops, call_gateway, call_all,
  start_gateway, stop_gateway, set_worker_thread_num, setup_heartbeat, create_timer_fd, is_removed,
}
use chater.Channel.{enable_reading, update}
use chater.EventLoop.{quit_loop, wakeup}
use chater.TcpServer.{new_tcp_server, start_server}
use chater.LoopPool.{start, new_loop_pool}
use chater.WorkerPool
use chater.WorkerPool.{start_pool, stop_pool, set_thread_num}
use chater.Server.Lifetime.Stages.{
  Stage, fresh, serving, ended, next_stage, stages, IsFresh, IsServing, IsEnded, IsAt, Follows,
  Given, made,
}

-- Half of a number is positive exactly from 2 on.
halved-is_armed :
    (timeout fd : ℕ) → is_armed (record { fd = fd; interval = timeout / 2 }) ≡ leb 2 timeout
unfolding is_armed
halved-is_armed timeout fd = ground arith

start-fresh :
    (given : Given) (fd : ℕ) (loops : List ℕ) (g : Gateway)
    → IsFresh given g
    → Follows given (start_gateway (some fd) loops g) (some (serving fd))
unfolding start_gateway setup_heartbeat create_timer_fd is_removed start_pool start_server start
start-fresh given fd loops g f = elim (Bool-cases (given.held == 0)) [
  | inl zero_held ↦
      simp
        (
          start_gateway, f.idle, f.resting, f.no_channel, f.tcp_new, f.loops_new, f.deaf,
          f.timeout_kept, zero_held,
        )
        (record {
          started = refl;
          working = refl;
          timed = record { timer = refl; channel = refl; armed = halved-is_armed given.timeout fd };
          listens = sym zero_held;
          same_loop = f.same_loop;
        })
  | inr other ↦
      simp
        (
          start_gateway, f.idle, f.resting, f.no_channel, f.tcp_new, f.loops_new, f.deaf,
          f.timeout_kept, other,
        )
        (record {
          started = refl;
          working = refl;
          timed = record { timer = refl; channel = refl; armed = halved-is_armed given.timeout fd };
          listens = sym other;
          same_loop = f.same_loop;
        })
]

untimed-start :
    (loops : List ℕ) (g : Gateway)
    → g.started ≡ false
    → g.workers.running ≡ false
    → start_gateway none loops g ≡ none
unfolding start_gateway setup_heartbeat start_pool create_timer_fd
untimed-start loops g idle resting = simp (start_gateway, idle, resting) refl

started-start :
    (answer : Option ℕ) (loops : List ℕ) (g : Gateway)
    → g.started ≡ true
    → start_gateway answer loops g ≡ none
unfolding start_gateway
started-start answer loops g on = simp (start_gateway, on) refl

-- A start after a stop destroys a channel that is still watched.
ended-start :
    (given : Given) (fd old : ℕ) (loops : List ℕ) (g : Gateway)
    → IsEnded given old g
    → start_gateway (some fd) loops g ≡ none
unfolding start_gateway setup_heartbeat start_pool is_removed enable_reading update create_timer_fd
ended-start given fd old loops g e =
    simp (start_gateway, e.stopped, e.resting, e.timed.channel) refl

pub stop-serving :
    (given : Given) (fd : ℕ) (b : Bool) (g : Gateway)
    → IsServing given fd g
    → IsEnded given fd (stop_gateway b g)
unfolding stop_gateway stop_pool quit_loop wakeup
stop-serving given fd true g s =
    rw (stop_gateway, s.started)
      (record { stopped = refl; resting = refl; timed = s.timed; ends = refl })
stop-serving given fd false g s =
    rw (stop_gateway, s.started)
      (record { stopped = refl; resting = refl; timed = s.timed; ends = refl })

-- `Stop` does nothing before `Start` and after another `Stop`.
pub idle-stop : (b : Bool) (g : Gateway) → g.started ≡ false → stop_gateway b g ≡ g
unfolding stop_gateway
idle-stop b g idle = rw (stop_gateway, idle) refl

set-IsAt :
    (given : Given) (n : ℕ) (s : Stage) (g : Gateway)
    → IsAt given s g
    → IsAt given s (set_worker_thread_num n g)
unfolding set_worker_thread_num set_thread_num
set-IsAt given n fresh g f = record {
  idle = f.idle;
  resting = f.resting;
  no_timer = f.no_timer;
  no_channel = f.no_channel;
  deaf = f.deaf;
  tcp_new = f.tcp_new;
  loops_new = f.loops_new;
  same_loop = f.same_loop;
  timeout_kept = f.timeout_kept;
}
set-IsAt given n (serving fd) g s = record {
  started = s.started;
  working = s.working;
  timed = s.timed;
  listens = s.listens;
  same_loop = s.same_loop;
}
set-IsAt given n (ended fd) g e = record {
  stopped = e.stopped;
  resting = e.resting;
  timed = e.timed;
  ends = e.ends;
}

call-Follows :
    (given : Given) (c : GatewayCall) (s : Stage) (g : Gateway)
    → IsAt given s g
    → Follows given (call_gateway c g) (next_stage c s)
unfolding call_gateway next_stage
call-Follows given (sets_workers n) s g a = set-IsAt given n s g a
call-Follows given (starts none loops) fresh g f = rw (untimed-start loops g f.idle f.resting) tt
call-Follows given (starts none loops) (serving old) g s =
    rw (started-start none loops g s.started) tt
call-Follows given (starts none loops) (ended old) g e =
    rw (untimed-start loops g e.stopped e.resting) tt
call-Follows given (starts (some fd) loops) fresh g f = start-fresh given fd loops g f
call-Follows given (starts (some fd) loops) (serving old) g s =
    rw (started-start (some fd) loops g s.started) tt
call-Follows given (starts (some fd) loops) (ended old) g e =
    rw (ended-start given fd old loops g e) tt
call-Follows given (stops b) fresh g f = rw (idle-stop b g f.idle) f
call-Follows given (stops b) (serving fd) g s = stop-serving given fd b g s
call-Follows given (stops b) (ended fd) g e = rw (idle-stop b g e.stopped) e

-- One call and then those that follow.
Follows-chain :
    (given : Given) (cs : List GatewayCall) (o : Option Gateway) (p : Option Stage)
    → ((s : Stage) (g : Gateway) → IsAt given s g → Follows given (call_all cs g) (stages cs s))
    → Follows given o p
    → Follows given (o >>= (λ g. call_all cs g)) (p >>= (λ s. stages cs s))
Follows-chain given cs none none k f = tt
Follows-chain given cs none (some s) k f = absurd f
Follows-chain given cs (some g) none k f = absurd f
Follows-chain given cs (some g) (some s) k f = k s g f

calls-Follows :
    (given : Given) (cs : List GatewayCall) (s : Stage) (g : Gateway)
    → IsAt given s g
    → Follows given (call_all cs g) (stages cs s)
unfolding call_all stages
calls-Follows given [] s g a = a
calls-Follows given (c ∷ cs) s g a =
    Follows-chain given cs (call_gateway c g) (next_stage c s)
      (λ s g a. calls-Follows given cs s g a) (call-Follows given c s g a)

new_gateway-IsFresh : (given : Given) → IsFresh given (made given)
unfolding new_gateway WorkerPool.new_pool new_tcp_server new_loop_pool
new_gateway-IsFresh given = record {
  idle = refl;
  resting = refl;
  no_timer = refl;
  no_channel = refl;
  deaf = refl;
  tcp_new = refl;
  loops_new = refl;
  same_loop = refl;
  timeout_kept = refl;
}

-- Whatever `Start`, `Stop` and `SetWorkerThreadNum` are called in whatever order on a new gateway, the
-- calls succeed exactly if `Start` is called at most once and gets its timer; a second `Start` fails
-- also after a `Stop`. From `Start` to the first `Stop` behind it the worker pool runs, the loop is as it
-- was, and a watched timer expires every `timeout / 2` seconds, or never if the timeout is below 2; and
-- the server listens exactly if the memory of the TCP server's `started_`, which has no initial value, held
-- 0. Before `Start` there is no timer and nothing listens; after `Stop` the pool is told to end and the
-- loop to quit.
pub call_all-Follows :
    (given : Given) (cs : List GatewayCall)
    → Follows given (call_all cs (made given)) (stages cs fresh)
call_all-Follows given cs = calls-Follows given cs fresh (made given) (new_gateway-IsFresh given)
