-- ===== src/Server/Lifetime.antt =====
-- HPGateway/src/gateway/GatewayServer.cpp: `Start`, `Stop`, the heartbeat timer and the destructor, over the
-- server's worker pool, its TCP server and its event loop. The answers of the system are arguments; the
-- timeout is not negative.
pub mod Stages
pub mod Follows
pub mod Closing
mod Tests
use chater.Common.{
  ℕ, ◌/◌, ◌≡◌, Bool, true, false, not, Option, none, some, List, [], ◌∷◌, if◌then◌else◌, ltb, ◌>>=◌,
  ◌>>◌, assert,
}
use chater.Channel.{Channel, new_channel, enable_reading, disable_all, remove}
use chater.EventLoop.{EventLoop, new_loop, quit_loop}
use chater.TcpServer.{TcpServer, new_tcp_server, start_server}
use chater.WorkerPool
use chater.WorkerPool.{ThreadPool, set_thread_num, start_pool, stop_pool}

-- A timer descriptor with the seconds between its expirations.
pub record Timer : Type 0 where
  pub fd : ℕ
  pub interval : ℕ

pub record Gateway : Type 0 where
  pub event_loop : EventLoop
  pub tcp : TcpServer
  pub workers : ThreadPool
  pub started : Bool
  pub heartbeat_timer : Option Timer
  pub heartbeat_channel : Option Channel
  pub heartbeat_timeout_sec : ℕ

-- The constructor, over an event loop in any state; `held` is what `started_` of the TCP server happens to
-- hold.
unfoldable pub new_gateway : EventLoop → ℕ → ℕ → ℕ → Gateway
new_gateway event_loop held base_loop timeout = record {
  event_loop = event_loop;
  tcp = new_tcp_server held base_loop true;
  workers = WorkerPool.new_pool;
  started = false;
  heartbeat_timer = none;
  heartbeat_channel = none;
  heartbeat_timeout_sec = timeout;
}

unfoldable pub set_worker_thread_num : ℕ → Gateway → Gateway
set_worker_thread_num n g = record g { workers = set_thread_num n g.workers }

-- `CreateTimerFd`, with the descriptor that the system answers; without one the process ends.
unfoldable pub create_timer_fd : ℕ → Option ℕ → Option Timer
create_timer_fd seconds answer = do fd ← answer; some (record { fd = fd; interval = seconds })

-- `timerfd_settime`: a timer whose first expiration is in no seconds is switched off.
unfoldable pub is_armed : Timer → Bool
is_armed t = ltb 0 t.interval

-- What the destructor of a channel asserts.
unfoldable pub is_removed : Option Channel → Bool
is_removed none = true
is_removed (some c) = not c.added_to_loop

-- `SetupHeartbeat`; `reset` destroys the channel that was there.
unfoldable pub setup_heartbeat : Option ℕ → Gateway → Option Gateway
unfolding create_timer_fd is_removed
setup_heartbeat answer g = do
  timer ← create_timer_fd (g.heartbeat_timeout_sec / 2) answer
  assert (is_removed g.heartbeat_channel)
  some (record g {
    heartbeat_timer = some timer;
    heartbeat_channel = some (enable_reading new_channel);
  })

-- `Start`, with the loops that the TCP server starts.
unfoldable pub start_gateway : Option ℕ → List ℕ → Gateway → Option Gateway
unfolding setup_heartbeat
start_gateway answer loops g = do
  assert (not g.started)
  workers ← start_pool g.workers
  timed ← setup_heartbeat answer (record g { started = true; workers = workers })
  tcp ← start_server loops timed.tcp
  some (record timed { tcp = tcp })

-- `Stop`, up to the end of the worker threads.
unfoldable pub stop_gateway : Bool → Gateway → Gateway
stop_gateway in_loop_thread g =
    if g.started
    then record g {
      started = false;
      workers = stop_pool g.workers;
      event_loop = quit_loop in_loop_thread g.event_loop;
    }
    else g

unfoldable pub take_off : Option Channel → Option (Option Channel)
take_off none = some none
take_off (some c) = do c' ← remove (disable_all c); some (some c')

unfoldable pub close_timer : Option Timer → List ℕ
close_timer none = []
close_timer (some t) = t.fd ∷ []

-- The destructor: the descriptors that it closes. The channel is destroyed after it.
unfoldable pub destroy_gateway : Bool → Gateway → Option (Gateway × List ℕ)
unfolding stop_gateway take_off is_removed
destroy_gateway in_loop_thread g = do
  let stopped = stop_gateway in_loop_thread g
  channel ← take_off stopped.heartbeat_channel
  assert (is_removed channel)
  some (record stopped { heartbeat_channel = channel }, close_timer stopped.heartbeat_timer)

pub data GatewayCall : Type 0 where
  sets_workers : ℕ → GatewayCall
  starts : Option ℕ → List ℕ → GatewayCall
  stops : Bool → GatewayCall

unfoldable pub call_gateway : GatewayCall → Gateway → Option Gateway
unfolding set_worker_thread_num start_gateway stop_gateway
call_gateway (sets_workers n) g = some (set_worker_thread_num n g)
call_gateway (starts answer loops) g = start_gateway answer loops g
call_gateway (stops in_loop_thread) g = some (stop_gateway in_loop_thread g)

unfoldable pub call_all : List GatewayCall → Gateway → Option Gateway
unfolding call_gateway
call_all [] g = some g
call_all (c ∷ cs) g = do g' ← call_gateway c g; call_all cs g'
