-- ===== src/Router.antt =====
-- gateway/src/RouterServer.h and RouterServer.cpp: the dispatch loop of the ROUTER server. An identity
-- is known by a number, since the code only compares identities; the steady clock counts nanoseconds.
-- All state here is used by the dispatch thread alone, so a pass of the loop is one step.
pub mod Idle
pub mod Limit
pub mod Lifetime
mod Tests
use chater.Common.{
  ℕ, suc, ◌+◌, ◌-◌, ◌*◌, ◌/◌, ◌^◌, ◌≡◌, Bool, true, false, not, ◌&&◌, ◌||◌, Option, none, some,
  List, [], ◌∷◌, ◌++◌, ltb, leb, ◌==◌, if◌then◌else◌,
}
use chater.Common.Maps.{Map, lookup, insert}

pub record Router : Type 0 where
  pub max_connections : ℕ
  pub idle_timeout_sec : ℕ
  pub has_pool : Bool
  pub active_connections : ℕ
  pub known_identities : List ℕ
  pub last_active : Map ℕ

-- The state with which the dispatch loop starts.
unfoldable pub new_router : ℕ → ℕ → Bool → Router
new_router max seconds pool = record {
  max_connections = max;
  idle_timeout_sec = seconds;
  has_pool = pool;
  active_connections = 0;
  known_identities = [];
  last_active = [];
}

-- A message as `RecvRouterMessage` gives it.
pub record Message : Type 0 where
  pub identity : ℕ
  pub raw_type : ℕ
  pub body : List ℕ

-- What `zmq_poll` and, for an input event, `RecvRouterMessage` come to in one pass.
pub data Poll : Type 0 where
  poll_error : Poll
  timed_out : Poll
  other_event : Poll
  receive_failed : Poll
  received : Message → Poll

pub data Effect : Type 0 where
  sends_pong : ℕ → Effect
  submits : Message → Effect
  calls : Message → Effect

pub data Flow : Type 0 where
  continues breaks : Flow

unfoldable pub contains : ℕ → List ℕ → Bool
contains x [] = false
contains x (y ∷ ys) = (y == x) || contains x ys

abbrev pub ping_type : ℕ
ping_type = 3

abbrev pub second : ℕ
second = 10 ^ 9

-- `fetch_sub(1) - 1`, set back to 0 when that is negative.
unfoldable pub count_down : ℕ → ℕ
count_down n = if n == 0 then 0 else n - 1

-- `duration_cast<seconds>(now - last).count() >= idleTimeoutSec_`
unfoldable pub is_idle : ℕ → ℕ → ℕ → Bool
is_idle seconds now last = leb seconds ((now - last) / second)

-- The loop of `CleanupIdleConnections` over `lastActive_`: what is left, and the counter.
unfoldable pub cleanup : ℕ → ℕ → Map ℕ → ℕ → Map ℕ × ℕ
cleanup seconds now [] active = ([], active)
cleanup seconds now ((id, last) ∷ rest) active =
    let idle = is_idle seconds now last in
    let (kept, left) = cleanup seconds now rest (if idle then count_down active else active) in
    (if idle then kept else (id, last) ∷ kept, left)

unfoldable pub cleanup_idle_connections : ℕ → Router → Router
cleanup_idle_connections now r =
    let (kept, active) = cleanup r.idle_timeout_sec now r.last_active r.active_connections in
    record r { last_active = kept; active_connections = active }

-- The message goes to the pool, or is handled in place.
unfoldable pub hand_on : Message → Router → List Effect
hand_on m r = (if r.has_pool then submits m else calls m) ∷ []

-- The part of a pass that checks the number of clients.
unfoldable pub admit : Message → Router → Router × List Effect
admit m r =
    if ltb 0 r.max_connections && not (contains m.identity r.known_identities)
    then (if leb r.max_connections r.active_connections then (r, []) else (
      record r {
        known_identities = m.identity ∷ r.known_identities;
        active_connections = r.active_connections + 1;
      },
      hand_on m r,
    ))
    else (r, hand_on m r)

-- A pass with a message: the time is noted, a ping is answered, all else must be admitted.
unfoldable pub on_received : ℕ → Message → Router → Router × List Effect
on_received now m r =
    let noted = record r { last_active = insert m.identity now r.last_active } in
    if m.raw_type == ping_type then (noted, sends_pong m.identity ∷ []) else admit m noted

-- One pass of `DispatchLoop`, with `running_` as it is read in the pass.
unfoldable pub dispatch_pass : Bool → ℕ → Poll → Router → Flow × Router × List Effect
dispatch_pass running now poll_error r = (breaks, r, [])
dispatch_pass running now timed_out r =
    (continues, if ltb 0 r.idle_timeout_sec then cleanup_idle_connections now r else r, [])
dispatch_pass running now other_event r = (continues, r, [])
dispatch_pass running now receive_failed r = (if running then continues else breaks, r, [])
dispatch_pass running now (received m) r = let (r', es) = on_received now m r in (continues, r', es)

-- What a pass comes to with the rest of the loop, which a break skips.
unfoldable pub follow : Flow → Router × List Effect → Router × List Effect → Router × List Effect
follow breaks (r, es) after = (r, es)
follow continues (r, es) (r', more) = (r', es ++ more)

-- The loop over the events that it meets; it ends at a break.
unfoldable pub dispatch_loop : List (Bool × ℕ × Poll) → Router → Router × List Effect
unfolding follow
dispatch_loop [] r = (r, [])
dispatch_loop ((running, now, poll) ∷ ps) r =
    let (flow, r', es) = dispatch_pass running now poll r in
    follow flow (r', es) (dispatch_loop ps r')
