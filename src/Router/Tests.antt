-- ===== src/Router/Tests.antt =====
-- Runs of the dispatch loop, and its theorems at small inputs.
use chater.Common.{
  ℕ, ◌-◌, ◌≤◌, ◌≡◌, refl, Bool, true, false, none, some, ◌∷◌, List, [], length, arith,
  if◌then◌else◌,
}
use chater.Common.Maps.{lookup, insert}
use chater.Router.{
  Router, Message, Poll, received, new_router, dispatch_loop, dispatch_pass, on_received, admit,
  hand_on, contains, follow, cleanup_idle_connections, cleanup, count_down, is_idle,
}
use chater.Router.Idle.{has_gone_idle, idle_count, cleanup_idle_connections_lem}
use chater.Router.Lifetime.{
  RouterCall, starts, stops, idle_router, call_routers, Leads, call_routers-Leads,
}
use chater.Router.Limit.{dispatch_loop-limit, all_from, is_distinct}

abbrev login : ℕ → Message
login id = record { identity = id; raw_type = 1; body = [] }

abbrev ping : ℕ → Message
ping id = record { identity = id; raw_type = 3; body = [] }

-- Three clients where two may be, and a ping of a fourth.
abbrev crowd : List (Bool × ℕ × Poll)
crowd =
    (true, 1, received (login 5))
    ∷ (true, 2, received (login 6))
    ∷ (true, 3, received (login 7))
    ∷ (true, 4, received (ping 8))
    ∷ []

two_admitted : (dispatch_loop crowd (new_router 2 0 true)).0.known_identities ≡ 6 ∷ 5 ∷ []
unfolding dispatch_loop dispatch_pass on_received admit hand_on contains follow new_router insert
two_admitted = refl

dispatch_loop-limit_example :
    let (r, es) = dispatch_loop crowd (new_router 2 0 true) in
    (r.active_connections ≡ length r.known_identities)
    × (is_distinct r.known_identities ≡ true)
    × (length r.known_identities ≤ 2)
    × (all_from r.known_identities es ≡ true)
dispatch_loop-limit_example = dispatch_loop-limit 2 true crowd (omega arith)

-- A client that is admitted, and one that only pings and goes idle.
abbrev one_pinging : Router
one_pinging = record {
  max_connections = 1;
  idle_timeout_sec = 10;
  has_pool = true;
  active_connections = 1;
  known_identities = 5 ∷ [];
  last_active = (5, 20000000000) ∷ (8, 4) ∷ [];
}

-- The cleanup frees the place of the client that is still there.
place_lost : (cleanup_idle_connections 21000000000 one_pinging).active_connections ≡ 0
unfolding cleanup_idle_connections cleanup count_down is_idle
place_lost = refl

cleanup_idle_connections_lem_example :
    let r = cleanup_idle_connections 21000000000 one_pinging in
    (lookup 8 r.last_active ≡ (
      if has_gone_idle 10 21000000000 8 one_pinging.last_active
      then none
      else lookup 8 one_pinging.last_active))
    × (r.active_connections ≡ 1 - idle_count 10 21000000000 one_pinging.last_active)
    × (r.known_identities ≡ 5 ∷ [])
cleanup_idle_connections_lem_example =
    cleanup_idle_connections_lem 21000000000 8 one_pinging (omega arith)

-- A start, another one, a stop, a start whose socket cannot be bound, and a stop.
abbrev restarts : List RouterCall
restarts = starts (some 4) true ∷ starts (some 5) true ∷ stops ∷ starts (some 6) false ∷ stops ∷ []

call_routers-Leads_example : Leads idle_router (call_routers restarts idle_router)
call_routers-Leads_example = call_routers-Leads restarts
