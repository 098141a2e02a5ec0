-- ===== src/Server/Lifetime/Stages.antt =====
-- The stages of a gateway's life, HPGateway/src/gateway/GatewayServer.cpp.
use chater.Common.{ℕ, ◌≡◌, true, false, Option, none, some, List, [], ◌∷◌, leb, ◌>>=◌, ◌/◌, ◌==◌}
use chater.Server.Lifetime.{
  Timer, Gateway, is_armed, new_gateway, GatewayCall, sets_workers, starts, stops,
}
use chater.EventLoop.{EventLoop}
use chater.Channel.{Channel, new_channel, enable_reading}

pub data Stage : Type 0 where
  fresh : Stage
  serving : ℕ → Stage
  ended : ℕ → Stage

-- The stage after a call, with the timer's descriptor; `none` where the call ends the process.
unfoldable pub next_stage : GatewayCall → Stage → Option Stage
next_stage (sets_workers n) s = some s
next_stage (starts none loops) s = none
next_stage (starts (some fd) loops) fresh = some (serving fd)
next_stage (starts (some fd) loops) (serving old) = none
next_stage (starts (some fd) loops) (ended old) = none
next_stage (stops b) fresh = some fresh
next_stage (stops b) (serving fd) = some (ended fd)
next_stage (stops b) (ended fd) = some (ended fd)

unfoldable pub stages : List GatewayCall → Stage → Option Stage
unfolding next_stage
stages [] s = some s
stages (c ∷ cs) s = do s' ← next_stage c s; stages cs s'

-- The descriptors that the destructor has to close.
unfoldable pub timers : Stage → List ℕ
timers fresh = []
timers (serving fd) = fd ∷ []
timers (ended fd) = fd ∷ []

-- What the constructor finds: the loop, what the memory of the TCP server's `started_` holds, and the
-- configured timeout.
pub record Given : Type 0 where
  pub event_loop : EventLoop
  pub held : ℕ
  pub base_loop : ℕ
  pub timeout : ℕ

abbrev pub made : Given → Gateway
made given = new_gateway given.event_loop given.held given.base_loop given.timeout

pub record IsFresh (given : Given) (g : Gateway) : Type 0 where
  pub idle : g.started ≡ false
  pub resting : g.workers.running ≡ false
  pub no_timer : g.heartbeat_timer ≡ none
  pub no_channel : g.heartbeat_channel ≡ none
  pub deaf : g.tcp.listening ≡ false
  pub tcp_new : g.tcp.started ≡ given.held
  pub loops_new : g.tcp.pool.started ≡ false
  pub same_loop : g.event_loop ≡ given.event_loop
  pub timeout_kept : g.heartbeat_timeout_sec ≡ given.timeout

-- The timer's interval is half the timeout, so it is off for a timeout below 2; its channel is watched.
pub record HasTimer (timeout fd : ℕ) (timer_fd : Option Timer) (watched : Option Channel)
    : Type 0 where
  pub timer : timer_fd ≡ some (record { fd = fd; interval = timeout / 2 })
  pub armed : is_armed (record { fd = fd; interval = timeout / 2 }) ≡ leb 2 timeout
  pub channel : watched ≡ some (enable_reading new_channel)

pub record IsServing (given : Given) (fd : ℕ) (g : Gateway) : Type 0 where
  pub started : g.started ≡ true
  pub working : g.workers.running ≡ true
  pub timed : HasTimer given.timeout fd g.heartbeat_timer g.heartbeat_channel
  pub listens : g.tcp.listening ≡ (given.held == 0)
  pub same_loop : g.event_loop ≡ given.event_loop

pub record IsEnded (given : Given) (fd : ℕ) (g : Gateway) : Type 0 where
  pub stopped : g.started ≡ false
  pub resting : g.workers.running ≡ false
  pub timed : HasTimer given.timeout fd g.heartbeat_timer g.heartbeat_channel
  pub ends : g.event_loop.quit ≡ true

abbrev pub IsAt : Given → Stage → Gateway → Type 0
IsAt given fresh g = IsFresh given g
IsAt given (serving fd) g = IsServing given fd g
IsAt given (ended fd) g = IsEnded given fd g

-- The gateway and the stage both exist and agree, or neither exists.
abbrev pub Follows : Given → Option Gateway → Option Stage → Type 0
Follows given none none = Unit {0}
Follows given none (some s) = ⊥
Follows given (some g) none = ⊥
Follows given (some g) (some s) = IsAt given s g
