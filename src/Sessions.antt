-- ===== src/Sessions.antt =====
-- HPGateway/src/gateway/SessionManager.h and SessionManager.cpp. Each method holds the mutex from
-- its first line to its last, so a method is one step; `now` is the clock in milliseconds that the
-- method reads. Connection ids are keys of the map.
pub mod Automaton
mod Tests
use chater.Common.{
  ℕ, ◌≡◌, Bool, true, false, Option, none, some, List, [], ◌∷◌, length, if◌then◌else◌,
}
use chater.Common.Maps.{Map, lookup, insert, erase, member}

pub record Session : Type 0 where
  pub conn_id : ℕ
  pub account : List ℕ
  pub logged_in : Bool
  pub login_time : ℕ
  pub last_heartbeat : ℕ

abbrev pub Sessions : Type 0
Sessions = Map Session

-- The session that `AddSession` stores.
abbrev pub fresh_session : ℕ → ℕ → Session
fresh_session id now = record {
  conn_id = id;
  account = [];
  logged_in = false;
  login_time = 0;
  last_heartbeat = now;
}

unfoldable pub add_session : ℕ → ℕ → Sessions → Bool × Sessions
add_session id now m =
    if member id m then (false, m) else (true, insert id (fresh_session id now) m)

unfoldable pub remove_session : ℕ → Sessions → Bool × Sessions
remove_session id m = (member id m, erase id m)

unfoldable pub login : ℕ → List ℕ → ℕ → Sessions → Bool × Sessions
login id account now m = elim (lookup id m) [
  | none ↦ (false, m)
  | some s ↦
      (true, insert id (record s { logged_in = true; account = account; login_time = now }) m)
]

unfoldable pub logout : ℕ → Sessions → Bool × Sessions
logout id m = elim (lookup id m) [
  | none ↦ (false, m)
  | some s ↦ (true, insert id (record s { logged_in = false }) m)
]

unfoldable pub is_logged_in : ℕ → Sessions → Bool
is_logged_in id m = elim (lookup id m) [ none ↦ false | some s ↦ s.logged_in ]

unfoldable pub update_heartbeat : ℕ → ℕ → Sessions → Sessions
update_heartbeat id now m = elim (lookup id m) [
  | none ↦ m
  | some s ↦ insert id (record s { last_heartbeat = now }) m
]

unfoldable pub get_session : ℕ → Sessions → Option Session
get_session id m = lookup id m

unfoldable pub session_count : Sessions → ℕ
session_count m = length m

-- The calls that change the map, each with what it returns.
pub data Call : Type 0 where
  add : ℕ → Call
  remove : Call
  log_in : List ℕ → ℕ → Call
  log_out : Call
  beat : ℕ → Call

unfoldable pub call : ℕ → Call → Sessions → Bool × Sessions
unfolding add_session remove_session login logout update_heartbeat
call id (add now) m = add_session id now m
call id remove m = remove_session id m
call id (log_in account now) m = login id account now m
call id log_out m = logout id m
call id (beat now) m = (true, update_heartbeat id now m)
