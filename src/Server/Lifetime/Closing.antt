-- ===== src/Server/Lifetime/Closing.antt =====
-- What is left when a gateway is destroyed, HPGateway/src/gateway/GatewayServer.cpp.
use chater.Common.{ℕ, ◌≡◌, refl, Bool, Option, none, some, List, ◌>>=◌}
use chater.Channel.{enable_reading, disable_all, remove, update, is_none_event}
use chater.Server.Lifetime.{
  Gateway, GatewayCall, call_all, destroy_gateway, take_off, is_removed, close_timer,
}
use chater.Server.Lifetime.Stages.{
  Stage, fresh, serving, ended, timers, stages, Given, made, IsAt, Follows,
}
use chater.Server.Lifetime.Follows.{stop-serving, idle-stop, call_all-Follows}

-- What the destructor closes.
abbrev pub closed : Bool → Gateway → Option (List ℕ)
closed b g = do (g', fds) ← destroy_gateway b g; some fds

destroyed_lem :
    (given : Given) (b : Bool) (s : Stage) (g : Gateway)
    → IsAt given s g
    → closed b g ≡ some (timers s)
unfolding destroy_gateway take_off is_removed close_timer timers enable_reading disable_all remove
    update is_none_event
destroyed_lem given b fresh g f = rw (idle-stop b g f.idle) (simp (f.no_channel, f.no_timer) refl)
destroyed_lem given b (serving fd) g s =
    let e = stop-serving given fd b g s in simp (e.timed.channel, e.timed.timer) refl
destroyed_lem given b (ended fd) g e =
    rw (idle-stop b g e.stopped) (simp (e.timed.channel, e.timed.timer) refl)

followed_lem :
    (given : Given) (b : Bool) (o : Option Gateway) (p : Option Stage)
    → Follows given o p
    → (o >>= (λ g. closed b g)) ≡ (p >>= (λ s. some (timers s)))
followed_lem given b none none f = refl
followed_lem given b none (some s) f = absurd f
followed_lem given b (some g) none f = absurd f
followed_lem given b (some g) (some s) f = destroyed_lem given b s g f

-- After any calls that succeed, the destructor succeeds and closes the heartbeat timer if the gateway
-- was ever started, and nothing else.
pub call_all-closed :
    (given : Given) (cs : List GatewayCall) (b : Bool)
    → (call_all cs (made given) >>= (λ g. closed b g))
      ≡ (stages cs fresh >>= (λ s. some (timers s)))
call_all-closed given cs b =
    followed_lem given b (call_all cs (made given)) (stages cs fresh) (call_all-Follows given cs)
