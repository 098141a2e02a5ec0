-- ===== src/Sessions/Automaton.antt =====
-- The session manager against one small automaton for each connection id: no session, or one that
-- is logged in or not.
use chater.Common.{
  ℕ, ◌≡◌, refl, ap, ◌∙◌, Bool, true, false, Option, none, some, List, [], ◌∷◌, arith, if◌then◌else◌,
  ◌==◌, ==_iff, inl, inr, Option-cases, ◌+◌,
}
use chater.Common.Maps.{
  lookup, member, IsSorted, lookup-insert, lookup-erase, insert-IsSorted, erase-IsSorted,
  length-insert, length-erase,
}
use chater.Sessions.{
  Session, Sessions, fresh_session, session_count, Call, add, remove, log_in, log_out, beat, call,
}

-- The automaton of one id: what a call returns, and the session after it.
pub automaton : ℕ → Call → Option Session → Bool × Option Session
automaton id (add now) none = (true, some (fresh_session id now))
automaton id (add now) (some s) = (false, some s)
automaton id remove none = (false, none)
automaton id remove (some s) = (true, none)
automaton id (log_in account now) none = (false, none)
automaton id (log_in account now) (some s) =
    (true, some (record s { logged_in = true; account = account; login_time = now }))
automaton id log_out none = (false, none)
automaton id log_out (some s) = (true, some (record s { logged_in = false }))
automaton id (beat now) none = (true, none)
automaton id (beat now) (some s) = (true, some (record s { last_heartbeat = now }))

-- A call for `id` returns what the automaton of `id` returns, moves that automaton, and leaves
-- every other session as it was.
pub call_lem :
    (id j : ℕ) (c : Call) (m : Sessions)
    → ((call id c m).0 ≡ (automaton id c (lookup id m)).0)
      × (lookup j (call id c m).1
          ≡ (if id == j then (automaton id c (lookup id m)).1 else lookup j m))
unfolding call automaton
call_lem id j (add now) m = ground (arith, lookup-insert id j (fresh_session id now) m)
call_lem id j remove m = ground (arith, lookup-erase id j m)
call_lem id j (log_in account now) m = elim (Option-cases (lookup id m)) [
  | inl missing ↦ ground arith
  | inr (s, found) ↦ ground (
    arith,
    lookup-insert id j (record s { logged_in = true; account = account; login_time = now }) m,
  )
]
call_lem id j log_out m = elim (Option-cases (lookup id m)) [
  | inl missing ↦ ground arith
  | inr (s, found) ↦ ground (arith, lookup-insert id j (record s { logged_in = false }) m)
]
call_lem id j (beat now) m = elim (Option-cases (lookup id m)) [
  | inl missing ↦ ground arith
  | inr (s, found) ↦ ground (arith, lookup-insert id j (record s { last_heartbeat = now }) m)
]

-- A history of calls, each for some id.
pub run_calls : List (ℕ × Call) → Sessions → Sessions
run_calls [] m = m
run_calls ((id, c) ∷ cs) m = run_calls cs (call id c m).1

pub run_automaton : ℕ → List (ℕ × Call) → Option Session → Option Session
run_automaton j [] s = s
run_automaton j ((id, c) ∷ cs) s = run_automaton j cs (if id == j then (automaton id c s).1 else s)

-- After any history, the session of an id is what its automaton makes of the calls for that id.
pub run_calls-refines :
    (cs : List (ℕ × Call)) (j : ℕ) (m : Sessions)
    → lookup j (run_calls cs m) ≡ run_automaton j cs (lookup j m)
unfolding run_calls run_automaton
run_calls-refines [] j m = refl
run_calls-refines ((id, c) ∷ cs) j m =
    run_calls-refines cs j (call id c m).1 ∙ ap (run_automaton j cs) (step (id == j) refl)
  where
    same : (id == j) ≡ true → lookup id m ≡ lookup j m
    same e = ap (λ k. lookup k m) ((==_iff id j).0 e)

    step :
        (t : Bool)
        → (id == j) ≡ t
        → lookup j (call id c m).1
          ≡ (if id == j then (automaton id c (lookup j m)).1 else lookup j m)
    step true e = ground (arith, (call_lem id j c m).1, same e)
    step false e = ground (arith, (call_lem id j c m).1)

-- A call keeps the map of sessions in the order of its keys, each once.
pub call-IsSorted : (id : ℕ) (c : Call) (m : Sessions) → IsSorted 0 m → IsSorted 0 (call id c m).1
unfolding call
call-IsSorted id (add now) m v = ground (arith, insert-IsSorted id 0 (fresh_session id now) m)
call-IsSorted id remove m v = erase-IsSorted id 0 m v
call-IsSorted id (log_in account now) m v = grind (arith, insert-IsSorted)
call-IsSorted id log_out m v = grind (arith, insert-IsSorted)
call-IsSorted id (beat now) m v = grind (arith, insert-IsSorted)

-- On a map in the order of its keys, `SessionCount` counts the ids with a session: an added one more,
-- a removed one less, and the other calls leave the count.
pub call-count :
    (id : ℕ) (c : Call) (m : Sessions)
    → IsSorted 0 m
    → session_count (call id c m).1 + (if member id m then 1 else 0)
      ≡ session_count m + (if member id (call id c m).1 then 1 else 0)
unfolding call session_count
call-count id (add now) m v = ground (
  arith,
  length-insert id 0 (fresh_session id now) m v,
  lookup-insert id id (fresh_session id now) m,
)
call-count id remove m v = ground (arith, length-erase id 0 m v, lookup-erase id id m)
call-count id (log_in account now) m v = elim (Option-cases (lookup id m)) [
  | inl missing ↦ ground arith
  | inr (s, found) ↦ ground (
    arith,
    length-insert id 0 (record s { logged_in = true; account = account; login_time = now }) m v,
    lookup-insert id id (record s { logged_in = true; account = account; login_time = now }) m,
  )
]
call-count id log_out m v = elim (Option-cases (lookup id m)) [
  | inl missing ↦ ground arith
  | inr (s, found) ↦ ground (
    arith,
    length-insert id 0 (record s { logged_in = false }) m v,
    lookup-insert id id (record s { logged_in = false }) m,
  )
]
call-count id (beat now) m v = elim (Option-cases (lookup id m)) [
  | inl missing ↦ ground arith
  | inr (s, found) ↦ ground (
    arith,
    length-insert id 0 (record s { last_heartbeat = now }) m v,
    lookup-insert id id (record s { last_heartbeat = now }) m,
  )
]
