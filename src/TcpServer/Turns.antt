-- ===== src/TcpServer/Turns.antt =====
-- A loop's turn and the close of a connection in HPGateway/src/net/TcpServer.cpp.
use chater.Common.{
  ℕ, ◌≡◌, refl, sym, ◌∙◌, subst, true, inl, inr, none, some, List, ◌==◌, ==_refl, Bool-cases, arith,
}
use native.Mathlib.Decide.{dec_lt}
use chater.Common.Maps.{lookup, member, option-cases, lookup-insert}
use chater.TcpConnection.{is_open}
use chater.TcpServer.{
  Functor, establish, remove_in_loop, destroy, Conn, TcpServer, queue_in, set_object, perform,
  run_in_loop, remove_connection, close_connection, close_event,
}
use chater.TcpServer.Queue.{target, pending_for, pending_for-queued, Removed, not_none}
use chater.TcpServer.Stages.{
  Stage, closed, establish-fresh, remove-closed, destroy-removed, open-up, closed_lem,
}
use chater.TcpServer.Consistent.{
  IsConsistent, IsConsistentBut, known_at, complete, but-object, but-queue,
}
use chater.TcpServer.Preserved.{Ends, establish_lem, destroy_lem, remove_lem}

-- All but one that is in use.
but :
    (k : ℕ) (c : Conn) (s : TcpServer)
    → IsConsistent s
    → lookup k s.objects ≡ some c
    → IsConsistentBut k s
but k c s v found = record {
  places = λ j ne. v.places j;
  unused = λ j ne h. v.unused j h;
  used = elim (dec_lt k s.next_conn_id) [
    | yes less ↦ less
    | no more ↦ absurd (ground (arith, v.unused k (omega arith), found))
  ];
  ready = v.ready;
}

-- What was left of a server when a functor was taken out.
taken :
    (loop : ℕ) (f : Functor) (fs : List (ℕ × Functor)) (s : TcpServer) (c : Conn)
    → IsConsistent s
    → Removed loop f s.pending fs
    → lookup (target f) s.objects ≡ some c
    → IsConsistentBut (target f) (record s { pending = fs })
taken loop f fs s c v r found = record {
  places = λ j ne. rw (r.others j ne) (v.places j);
  unused = λ j ne h. v.unused j h;
  used = (but (target f) c s v found).used;
  ready = v.ready;
}

turn_of :
    (loop : ℕ) (f : Functor) (fs : List (ℕ × Functor)) (s : TcpServer) (c : Conn)
    → IsConsistent s
    → Removed loop f s.pending fs
    → lookup (target f) s.objects ≡ some c
    → Stage
        (target f)
        s.pool.base_loop
        c
        (member (target f) s.connections)
        (pending_for (target f) s.pending)
    → Ends s.next_conn_id (perform f (record s { pending = fs }))
turn_of loop (establish k) fs s c v r found t =
    let (st, m, none_left) =
      establish-fresh k s.pool.base_loop loop c _ r.before r.after
        (subst (Stage k s.pool.base_loop c (member k s.connections)) r.was t) in
    establish_lem k c (record s { pending = fs }) (taken loop (establish k) fs s c v r found) found
      st m (r.is ∙ none_left)
turn_of loop (remove_in_loop k) fs s c v r found t =
    let (st, m, none_left) =
      remove-closed k s.pool.base_loop loop c _ r.before r.after
        (subst (Stage k s.pool.base_loop c (member k s.connections)) r.was t) in
    remove_lem k c (record s { pending = fs }) (taken loop (remove_in_loop k) fs s c v r found)
      found st m (r.is ∙ none_left)
turn_of loop (destroy k) fs s c v r found t =
    let (st, m, none_left) =
      destroy-removed k s.pool.base_loop loop c _ r.before r.after
        (subst (Stage k s.pool.base_loop c (member k s.connections)) r.was t) in
    destroy_lem k c (record s { pending = fs }) (taken loop (destroy k) fs s c v r found) found st m
      (r.is ∙ none_left)

pub turn_lem :
    (loop : ℕ) (f : Functor) (fs : List (ℕ × Functor)) (s : TcpServer)
    → IsConsistent s
    → Removed loop f s.pending fs
    → Ends s.next_conn_id (perform f (record s { pending = fs }))
turn_lem loop f fs s v r = elim (option-cases (lookup (target f) s.objects)) [
  | inl missing ↦
      not_none r.before r.after (loop, f) (sym r.was ∙ (known_at (target f) s none v missing).1)
  | inr (c, found) ↦ turn_of loop f fs s c v r found (known_at (target f) s (some c) v found)
]

close_up :
    (k : ℕ) (c : Conn) (s : TcpServer)
    → IsConsistent s
    → lookup k s.objects ≡ some c
    → is_open c.object.state ≡ true
    → Ends s.next_conn_id (close_connection k s)
unfolding close_connection set_object remove_connection run_in_loop queue_in
close_up k c s v found o =
    let (m, none_waits) = open-up k s.pool.base_loop c _ _ (known_at k s (some c) v found) o in
    let (object, acts, run, shut) = closed_lem c.object o in
    let c1 = record c { object = object } in
    let s1 = set_object k c1 s in
    let v1 : IsConsistentBut k s1 = but-object k c1 s (but k c s v found) in
    let seen : lookup k s1.objects ≡ some c1 =
      rw (lookup-insert k k c1 s.objects, ==_refl k) refl in
    elim (Bool-cases (c.loop == s.pool.base_loop)) [
      | inl here ↦
          simp (close_connection, found, run, here) (remove_lem k c1 s1 v1 seen shut m none_waits)
      | inr there ↦ (
        queue_in s.pool.base_loop (remove_in_loop k) s1,
        simp (close_connection, found, run, there) refl,
        complete k _ (but-queue s.pool.base_loop (remove_in_loop k) s1 v1) (
            rw seen (
              closed shut m
                (pending_for-queued s.pool.base_loop (remove_in_loop k) s.pending none_waits))),
        omega arith,
      )
    ]

opened-close_event :
    (k : ℕ) (c : Conn) (s : TcpServer)
    → lookup k s.objects ≡ some c
    → is_open c.object.state ≡ true
    → close_event k s ≡ close_connection k s
unfolding close_event
opened-close_event k c s found o = rw (close_event, found, o) refl

pub close_lem : (k : ℕ) (s : TcpServer) → IsConsistent s → Ends s.next_conn_id (close_event k s)
unfolding close_event
close_lem k s v = elim (option-cases (lookup k s.objects)) [
  | inl missing ↦ (s, simp (close_event, missing) refl, v, omega arith)
  | inr (c, found) ↦ elim (Bool-cases (is_open c.object.state)) [
    | inl o ↦
        subst (λ r. Ends s.next_conn_id r) (sym (opened-close_event k c s found o))
          (close_up k c s v found o)
    | inr shut ↦ (s, simp (close_event, found, shut) refl, v, omega arith)
  ]
]
