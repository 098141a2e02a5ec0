-- ===== src/Server/Lifetime/Tests.antt =====
-- A gateway that is started and stopped, and its theorem at such calls.
use chater.Common.{◌≡◌, refl, true, false, none, some, List, [], ◌∷◌}
use chater.Server.Lifetime.{GatewayCall, sets_workers, starts, stops, call_all}
use chater.EventLoop.{stopped}
use chater.Server.Lifetime.Stages.{Given, made, Follows, fresh, ended, stages, next_stage}
use chater.Server.Lifetime.Follows.{call_all-Follows}

-- Four workers, a start with the timer 12 and two loops, and two stops.
abbrev day : List GatewayCall
day = sets_workers 4 ∷ starts (some 12) (1 ∷ 2 ∷ []) ∷ stops false ∷ stops true ∷ []

day-stages : stages day fresh ≡ some (ended 12)
unfolding stages next_stage
day-stages = refl

-- Once more.
restarted : stages (starts (some 12) [] ∷ stops true ∷ starts (some 13) [] ∷ []) fresh ≡ none
unfolding stages next_stage
restarted = refl

-- A gateway that is made before its loop runs.
abbrev main_given : Given
main_given = record {
  event_loop = record {
    phase = stopped;
    quit = false;
    pending_functors = [];
    wakeups = 0;
    ran = [];
    queued = [];
    direct = [];
  };
  held = 0;
  base_loop = 0;
  timeout = 60;
}

call_all-Follows_example : Follows main_given (call_all day (made main_given)) (stages day fresh)
call_all-Follows_example = call_all-Follows main_given day
