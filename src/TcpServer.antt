-- ===== src/TcpServer.antt =====
-- HPGateway/src/net/TcpServer.h and TcpServer.cpp: the connections of a server, with the functors that
-- its loops still have to run. A connection's name ends in its number and starts alike for all, so the
-- number stands for the name; the objects are kept by that number, also when the server has dropped them.
pub mod Queue
pub mod Stages
pub mod Consistent
pub mod Preserved
pub mod Turns
pub mod Runs
mod Tests
use chater.Common.{
  ℕ, ◌+◌, ◌%◌, ◌^◌, ◌-◌, Bool, true, false, not, Option, none, some, List, [], ◌∷◌, ◌++◌, ltb, ◌==◌,
  if◌then◌else◌, ◌>>=◌, ◌>>◌, assert,
}
use chater.Common.Maps.{Map, lookup, insert, erase, member}
use chater.LoopPool.{LoopPool, new_loop_pool, get_next_loop}
use chater.LoopPool
use chater.TcpConnection.{
  TcpConnection, new_connection, is_open, connect_established, connect_destroyed, handle_close,
}

-- What is bound and handed to a loop: `ConnectEstablished`, `RemoveConnectionInLoop` or
-- `ConnectDestroyed` for a connection.
pub data Functor : Type 0 where
  establish : ℕ → Functor
  remove_in_loop : ℕ → Functor
  destroy : ℕ → Functor

-- A connection with the descriptor and the loop that it was made with.
pub record Conn : Type 0 where
  pub loop : ℕ
  pub sockfd : ℕ
  pub object : TcpConnection

pub record TcpServer : Type 0 where
  pub pool : LoopPool
  pub started : ℕ
  pub listening : Bool
  pub has_write_complete : Bool
  pub next_conn_id : ℕ
  pub connections : Map ℕ
  pub objects : Map Conn
  pub pending : List (ℕ × Functor)

-- The constructor. It leaves `started_` without a value, so what the memory held is an argument, as an
-- unsigned number.
unfoldable pub new_tcp_server : ℕ → ℕ → Bool → TcpServer
unfolding new_loop_pool
new_tcp_server held base_loop has_write_complete = record {
  pool = new_loop_pool base_loop;
  started = held;
  listening = false;
  has_write_complete = has_write_complete;
  next_conn_id = 1;
  connections = [];
  objects = [];
  pending = [];
}

-- `Start` in the base loop's thread, with the loops of the threads that the pool starts.
unfoldable pub start_server : List ℕ → TcpServer → Option TcpServer
start_server loops s =
    if s.started == 0
    then (do
      pool ← LoopPool.start loops s.pool
      assert (not s.listening)
      some (record s { pool = pool; started = 1; listening = true }))
    else some (record s { started = (s.started + 1) % 2 ^ 32 })

unfoldable pub queue_in : ℕ → Functor → TcpServer → TcpServer
queue_in loop f s = record s { pending = s.pending ++ (loop, f) ∷ [] }

unfoldable pub set_object : ℕ → Conn → TcpServer → TcpServer
set_object k c s = record s { objects = insert k c s.objects }

-- `RemoveConnectionInLoop`
unfoldable pub remove_connection_in_loop : ℕ → TcpServer → Option TcpServer
unfolding queue_in
remove_connection_in_loop k s = do
  c ← lookup k s.objects
  assert (member k s.connections)
  some (queue_in c.loop (destroy k) (record s { connections = erase k s.connections }))

-- A functor is run.
unfoldable pub perform : Functor → TcpServer → Option TcpServer
unfolding set_object remove_connection_in_loop
perform (establish k) s = do
  c ← lookup k s.objects
  (object, acts) ← connect_established c.object
  some (set_object k (record c { object = object }) s)
perform (remove_in_loop k) s = remove_connection_in_loop k s
perform (destroy k) s = do
  c ← lookup k s.objects
  (object, acts) ← connect_destroyed c.object
  some (set_object k (record c { object = object }) s)

-- `EventLoop::RunInLoop` of a loop, called from the thread of another one or of its own.
unfoldable pub run_in_loop : ℕ → ℕ → Functor → TcpServer → Option TcpServer
unfolding perform queue_in
run_in_loop current loop f s = if current == loop then perform f s else some (queue_in loop f s)

abbrev pub max_int : ℕ
max_int = 2 ^ 31 - 1

-- `NewConnection` in the base loop; one more name than an `int` can number is undefined.
unfoldable pub accept_connection : ℕ → TcpServer → Option TcpServer
unfolding run_in_loop
accept_connection sockfd s = do
  (loop, pool) ← get_next_loop s.pool
  assert (ltb s.next_conn_id max_int)
  run_in_loop s.pool.base_loop loop (establish s.next_conn_id) (record s {
    pool = pool;
    next_conn_id = s.next_conn_id + 1;
    connections = insert s.next_conn_id s.next_conn_id s.connections;
    objects =
        insert s.next_conn_id
          (record { loop = loop; sockfd = sockfd; object = new_connection s.has_write_complete })
          s.objects;
  })

-- `RemoveConnection`, which `HandleClose` calls in the connection's loop.
unfoldable pub remove_connection : ℕ → ℕ → TcpServer → Option TcpServer
unfolding run_in_loop
remove_connection current k s = run_in_loop current s.pool.base_loop (remove_in_loop k) s

-- `HandleClose` of a connection, in its loop, and its call of `RemoveConnection`.
unfoldable pub close_connection : ℕ → TcpServer → Option TcpServer
unfolding set_object remove_connection
close_connection k s = do
  c ← lookup k s.objects
  (object, acts) ← handle_close c.object
  remove_connection c.loop k (set_object k (record c { object = object }) s)

-- An event that ends a connection. Only the channel of one that is open is watched, so that there is no
-- such event for any other number.
unfoldable pub close_event : ℕ → TcpServer → Option TcpServer
close_event k s = elim (lookup k s.objects) [
  | none ↦ some s
  | some c ↦ if is_open c.object.state then close_connection k s else some s
]

-- The first functor that a loop has to run, and the others.
unfoldable pub take_turn : ℕ → List (ℕ × Functor) → Option (Functor × List (ℕ × Functor))
take_turn loop [] = none
take_turn loop ((l, f) ∷ fs) =
    let later = take_turn loop fs in
    if l == loop
    then some (f, fs)
    else elim later [ none ↦ none | some (g, gs) ↦ some (g, (l, f) ∷ gs) ]

-- One step of one of the threads, in any order: a client is accepted, an event closes a connection, or
-- a loop runs its next functor.
pub data Step : Type 0 where
  accepts : ℕ → Step
  closes : ℕ → Step
  turns : ℕ → Step

unfoldable pub server_step : Step → TcpServer → Option TcpServer
unfolding accept_connection close_event take_turn perform
server_step (accepts sockfd) s = accept_connection sockfd s
server_step (closes k) s = close_event k s
server_step (turns loop) s = elim (take_turn loop s.pending) [
  | none ↦ some s
  | some (f, fs) ↦ perform f (record s { pending = fs })
]

unfoldable pub run_server : List Step → TcpServer → Option TcpServer
unfolding server_step
run_server [] s = some s
run_server (x ∷ xs) s = do s' ← server_step x s; run_server xs s'

-- The destructor, in the base loop: every connection that is left is handed its `ConnectDestroyed`.
unfoldable pub destroy_all : Map ℕ → TcpServer → Option TcpServer
unfolding run_in_loop
destroy_all [] s = some s
destroy_all ((k, r) ∷ m) s = do
  c ← lookup k s.objects
  s' ← run_in_loop s.pool.base_loop c.loop (destroy k) s
  destroy_all m s'
