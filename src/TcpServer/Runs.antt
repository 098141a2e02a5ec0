-- ===== src/TcpServer/Runs.antt =====
-- Runs of the server of HPGateway/src/net/TcpServer.cpp, with its loops in any order.
use chater.Common.{
  ℕ, ◌+◌, ◌≤◌, ◌<◌, ◌≡◌, refl, sym, ap, ◌∙◌, subst, Bool, true, false, ◌⊎◌, inl, inr, Option, none,
  some, List, [], ◌∷◌, ◌==◌, ==_refl, Bool-cases, arith, length, lt→ltb,
}
use chater.Common.Maps.{some_injective, lookup, insert, member, option-cases, lookup-insert}
use chater.LoopPool.{LoopPool, new_loop_pool, start}
use chater.LoopPool.Ready.{IsReady, get_next_loop-Succeeds}
use chater.TcpConnection.{is_open, new_connection}
use chater.TcpServer.{
  establish, Conn, TcpServer, queue_in, run_in_loop, accept_connection, take_turn, Step, accepts,
  closes, turns, server_step, run_server, max_int, start_server, new_tcp_server,
}
use chater.TcpServer.Queue.{pending_for, pending_for-queued, Takes, take_turn-Takes}
use chater.TcpServer.Stages.{Stage, fresh, up, closed, removed, gone}
use chater.TcpServer.Consistent.{
  Place, IsConsistent, IsConsistentBut, known_at, complete, but-queue,
}
use chater.TcpServer.Preserved.{Ends, establish_lem}
use chater.TcpServer.Turns.{turn_lem, close_lem}

-- The connection that is made for an accepted descriptor, and the server that has it.
abbrev made : ℕ → ℕ → Bool → Conn
made l sockfd wc = record { loop = l; sockfd = sockfd; object = new_connection wc }

abbrev with_made : ℕ → ℕ → LoopPool → TcpServer → TcpServer
with_made l sockfd pool s = record s {
  pool = pool;
  next_conn_id = s.next_conn_id + 1;
  connections = insert s.next_conn_id s.next_conn_id s.connections;
  objects = insert s.next_conn_id (made l sockfd s.has_write_complete) s.objects;
}

made_but :
    (l sockfd : ℕ) (pool : LoopPool) (s : TcpServer)
    → IsConsistent s
    → IsReady pool
    → pool.base_loop ≡ s.pool.base_loop
    → IsConsistentBut s.next_conn_id (with_made l sockfd pool s)
made_but l sockfd pool s v ready same_base =
    let k = s.next_conn_id in
    record {
      places = λ j ne.
          rw
            (
              same_base,
              lookup-insert k j (made l sockfd s.has_write_complete) s.objects,
              ne,
              lookup-insert k j k s.connections,
              ne,
            )
            (v.places j);
      unused = λ j ne le.
          rw (lookup-insert k j (made l sockfd s.has_write_complete) s.objects, ne)
            (v.unused j (omega arith));
      used = omega arith;
      ready = ready;
    }

-- Whether the new connection is established at once or its functor waits.
accept_lem :
    (sockfd : ℕ) (s : TcpServer)
    → IsConsistent s
    → s.next_conn_id < max_int
    → Ends (s.next_conn_id + 1) (accept_connection sockfd s)
unfolding accept_connection run_in_loop queue_in new_connection
accept_lem sockfd s v h =
    let k = s.next_conn_id in
    let (l, pool, got, ready, same_base) = get_next_loop-Succeeds s.pool v.ready in
    let s1 = with_made l sockfd pool s in
    let c = made l sockfd s.has_write_complete in
    let (absent, none_waits) = known_at k s none v (v.unused k (omega arith)) in
    let v1 : IsConsistentBut k s1 = made_but l sockfd pool s v ready same_base in
    let seen : lookup k s1.objects ≡ some c = rw (lookup-insert k k c s.objects, ==_refl k) refl in
    let m : member k s1.connections ≡ true =
      rw (lookup-insert k k k s.connections, ==_refl k) refl in
    elim (Bool-cases (s.pool.base_loop == l)) [
      | inl here ↦
          simp (accept_connection, got, lt→ltb k max_int h, here)
            (establish_lem k c s1 v1 seen refl m none_waits)
      | inr there ↦ (
        queue_in l (establish k) s1,
        simp (accept_connection, got, lt→ltb k max_int h, there) refl,
        complete k _ (but-queue l (establish k) s1 v1)
            (rw seen (fresh refl m (pending_for-queued l (establish k) s.pending none_waits))),
        omega arith,
      )
    ]

step_lem :
    (x : Step) (s : TcpServer)
    → IsConsistent s
    → s.next_conn_id < max_int
    → Ends (s.next_conn_id + 1) (server_step x s)
unfolding server_step
step_lem (accepts sockfd) s v h = accept_lem sockfd s v h
step_lem (closes k) s v h = let (s', run, v', le) = close_lem k s v in (s', run, v', omega arith)
step_lem (turns loop) s v h = elim (option-cases (take_turn loop s.pending)) [
  | inl idle ↦ (s, simp (server_step, idle) refl, v, omega arith)
  | inr ((f, fs), took) ↦
      let (s', run, v', le) =
        turn_lem loop f fs s v
          (subst (Takes loop s.pending) took (take_turn-Takes loop s.pending)) in
      (s', simp (server_step, took) run, v', omega arith)
]

run_lem :
    (xs : List Step) (s : TcpServer)
    → IsConsistent s
    → s.next_conn_id + length xs ≤ max_int
    → Ends (s.next_conn_id + length xs) (run_server xs s)
unfolding run_server
run_lem [] s v h = (s, refl, v, omega arith)
run_lem (x ∷ xs) s v h =
    let (s1, run, v1, le) = step_lem x s v (omega arith) in
    let (s2, runs, v2, le2) = run_lem xs s1 v1 (omega arith) in
    (s2, simp (run_server, run) runs, v2, omega arith)

pub run_server-IsConsistent :
    (base : ℕ) (wc : Bool) (loops : List ℕ) (xs : List Step)
    → 1 + length xs ≤ max_int
    → (s : TcpServer) × (s' : TcpServer) × (start_server loops (new_tcp_server 0 base wc) ≡ some s)
      × (run_server xs s ≡ some s')
      × IsConsistent s'
unfolding start_server new_tcp_server new_loop_pool start lookup pending_for
run_server-IsConsistent base wc loops xs h =
    let s : TcpServer = record (new_tcp_server 0 base wc) {
      pool = record { base_loop = base; started = true; next = 0; loops = loops };
      started = 1;
      listening = true;
    } in
    let v : IsConsistent s = record {
      places = λ j. (refl, refl);
      unused = λ j h. refl;
      ready = (refl, ready_loops loops);
    } in
    let (s', run, v', le) = run_lem xs s v (omega arith) in (s, s', refl, run, v')
  where
    ready_loops : (ls : List ℕ) → (ls ≡ []) ⊎ (0 < length ls)
    ready_loops [] = inl refl
    ready_loops (l ∷ ls) = inr (omega arith)

-- Whether the object of a connection is open.
abbrev pub open_at : ℕ → TcpServer → Bool
open_at k s = elim (lookup k s.objects) [ none ↦ false | some c ↦ is_open c.object.state ]

Stage-quiet : (k base : ℕ) (c : Conn) (m : Bool) → Stage k base c m [] → m ≡ is_open c.object.state
Stage-quiet k base c m (fresh st h e) = absurd (omega (arith, ap length e))
Stage-quiet k base c m (up o h e) = h ∙ sym o
Stage-quiet k base c m (closed st h e) = absurd (omega (arith, ap length e))
Stage-quiet k base c m (removed st h e) = absurd (omega (arith, ap length e))
Stage-quiet k base c m (gone st h e) = h ∙ sym (ap is_open st.0)

Place-quiet :
    (k base : ℕ) (o : Option Conn) (m : Bool)
    → Place k base o m []
    → m ≡ elim o [ none ↦ false | some c ↦ is_open c.object.state ]
Place-quiet k base none m p = p.0
Place-quiet k base (some c) m p = Stage-quiet k base c m p

-- After any run of a started server, whose `started_` held 0, of fewer than 2^31 - 1 steps, once no functor waits, the table has
-- exactly the connections whose object is open: none leaks and none is lost.
pub run_server-quiet :
    (base : ℕ) (wc : Bool) (loops : List ℕ) (xs : List Step) (s s' : TcpServer)
    → 1 + length xs ≤ max_int
    → start_server loops (new_tcp_server 0 base wc) ≡ some s
    → run_server xs s ≡ some s'
    → s'.pending ≡ []
    → (k : ℕ) → member k s'.connections ≡ open_at k s'
unfolding pending_for
run_server-quiet base wc loops xs s s' h begun run quiet k =
    let (t, t', started, ran, v) = run_server-IsConsistent base wc loops xs h in
    let same : t' ≡ s' =
      some_injective t' s'
        (sym ran ∙ ap (run_server xs) (some_injective t s (sym started ∙ begun)) ∙ run) in
    let v' = subst IsConsistent same v in
    Place-quiet k s'.pool.base_loop (lookup k s'.objects) (member k s'.connections) (
      subst
        (λ fs.
          Place k s'.pool.base_loop (lookup k s'.objects) (member k s'.connections)
            (pending_for k fs))
        quiet (v'.places k))
