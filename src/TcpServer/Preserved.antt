-- ===== src/TcpServer/Preserved.antt =====
-- The functors of HPGateway/src/net/TcpServer.cpp, run on a connection at the stage that they are for.
use chater.Common.{ℕ, ◌≤◌, ◌≡◌, refl, true, false, Option, some, [], ==_refl, arith}
use chater.Common.Maps.{lookup, erase, member, lookup-insert, lookup-erase}
use chater.TcpConnection.{connecting}
use chater.TcpServer.{
  establish, remove_in_loop, destroy, Conn, TcpServer, queue_in, set_object, perform,
  remove_connection_in_loop,
}
use chater.TcpServer.Queue.{pending_for, pending_for-queued}
use chater.TcpServer.Stages.{Stage, up, removed, gone, IsShut, established_lem, destroyed_lem}
use chater.TcpServer.Consistent.{
  IsConsistent, IsConsistentBut, complete, but-object, but-queue, but-erase,
}

-- The operation succeeds, and numbers fewer than `n` connections.
abbrev pub Ends : ℕ → Option TcpServer → Type 0
Ends n outcome = (s : TcpServer) × (outcome ≡ some s) × IsConsistent s × (s.next_conn_id ≤ n)

-- An object is put in place.
placed :
    (k : ℕ) (c : Conn) (s : TcpServer)
    → IsConsistentBut k s
    → Stage k s.pool.base_loop c (member k s.connections) (pending_for k s.pending)
    → IsConsistent (set_object k c s)
unfolding set_object
placed k c s v t =
    complete k (set_object k c s) (but-object k c s v)
      (rw (lookup-insert k k c s.objects, ==_refl k) t)

pub establish_lem :
    (k : ℕ) (c : Conn) (s : TcpServer)
    → IsConsistentBut k s
    → lookup k s.objects ≡ some c
    → c.object.state ≡ connecting
    → member k s.connections ≡ true
    → pending_for k s.pending ≡ []
    → Ends s.next_conn_id (perform (establish k) s)
unfolding perform set_object
establish_lem k c s v found st m p =
    let (o, acts, run, open_) = established_lem c.object st in
    (
      set_object k (record c { object = o }) s,
      simp (perform, found, run) refl,
      placed k (record c { object = o }) s v (up open_ m p),
      omega arith,
    )

pub destroy_lem :
    (k : ℕ) (c : Conn) (s : TcpServer)
    → IsConsistentBut k s
    → lookup k s.objects ≡ some c
    → IsShut c.object
    → member k s.connections ≡ false
    → pending_for k s.pending ≡ []
    → Ends s.next_conn_id (perform (destroy k) s)
unfolding perform set_object
destroy_lem k c s v found shut m p =
    let (o, acts, run, shut') = destroyed_lem c.object shut in
    (
      set_object k (record c { object = o }) s,
      simp (perform, found, run) refl,
      placed k (record c { object = o }) s v (gone shut' m p),
      omega arith,
    )

-- `assert(n == 1)` holds.
pub remove_lem :
    (k : ℕ) (c : Conn) (s : TcpServer)
    → IsConsistentBut k s
    → lookup k s.objects ≡ some c
    → IsShut c.object
    → member k s.connections ≡ true
    → pending_for k s.pending ≡ []
    → Ends s.next_conn_id (perform (remove_in_loop k) s)
unfolding perform queue_in remove_connection_in_loop
remove_lem k c s v found shut m p =
    let s1 = record s { connections = erase k s.connections } in
    (
      queue_in c.loop (destroy k) s1,
      simp (perform, remove_connection_in_loop, found, m) refl,
      complete k (queue_in c.loop (destroy k) s1)
          (but-queue c.loop (destroy k) s1 (but-erase k s v))
          (rw found (
            removed shut (rw (lookup-erase k k s.connections, ==_refl k) refl)
              (pending_for-queued c.loop (destroy k) s.pending p))),
      omega arith,
    )
