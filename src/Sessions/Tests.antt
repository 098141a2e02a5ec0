-- ===== src/Sessions/Tests.antt =====
-- Runs of the session manager, and its theorems at small histories.
use chater.Common.{ℕ, ◌≡◌, refl, true, false, List, [], ◌∷◌}
use chater.Common.Maps.{lookup, insert}
use chater.Sessions.{
  Sessions, fresh_session, add, remove, log_in, log_out, call, Call, is_logged_in,
}
use chater.Sessions.Automaton.{run_calls, run_automaton, run_calls-refines}

abbrev one : Sessions
one = (4, fresh_session 4 100) ∷ []

abbrev history : List (ℕ × Call)
history = (4, log_in (97 ∷ []) 120) ∷ (5, add 130) ∷ (5, remove) ∷ (4, log_out) ∷ []

logged_in_twice : is_logged_in 4 (call 4 (log_in (97 ∷ []) 120) one).1 ≡ true
unfolding is_logged_in call lookup insert
logged_in_twice = refl

add_twice : (call 4 (add 200) one).0 ≡ false
unfolding call lookup
add_twice = refl

run_calls-refines_example :
    lookup 4 (run_calls history one) ≡ run_automaton 4 history (lookup 4 one)
run_calls-refines_example = run_calls-refines history 4 one
