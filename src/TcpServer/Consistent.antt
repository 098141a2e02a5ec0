-- ===== src/TcpServer/Consistent.antt =====
-- The connections of HPGateway/src/net/TcpServer.cpp, all at some stage of their life.
use chater.Common.{
  ℕ, ◌≤◌, ◌<◌, ◌≡◌, subst, Bool, false, inl, inr, Option, none, some, List, [], ◌∷◌, ◌==◌, ==_iff,
  Bool-cases, arith, append-nil,
}
use chater.Common.Maps.{lookup, erase, member, lookup-insert, lookup-erase}
use chater.LoopPool.Ready.{IsReady}
use chater.TcpServer.{Functor, Conn, TcpServer, queue_in, set_object}
use chater.TcpServer.Queue.{target, pending_for, pending_for-append}
use chater.TcpServer.Stages.{Stage}

-- A number that no connection has, or the stage of the one that has it.
abbrev pub Place : ℕ → ℕ → Option Conn → Bool → List (ℕ × Functor) → Type 0
Place k base none m fs = (m ≡ false) × (fs ≡ [])
Place k base (some c) m fs = Stage k base c m fs

abbrev pub PlaceIn : ℕ → TcpServer → Type 0
PlaceIn k s =
    Place k s.pool.base_loop (lookup k s.objects) (member k s.connections) (pending_for k s.pending)

-- Every connection is at a stage, and the numbers from `next_conn_id` on are unused.
pub record IsConsistent (s : TcpServer) : Type 0 where
  pub places : (j : ℕ) → PlaceIn j s
  pub unused : (j : ℕ) → s.next_conn_id ≤ j → lookup j s.objects ≡ none
  pub ready : IsReady s.pool

-- The place of a number, once it is known who has it.
pub known_at :
    (k : ℕ) (s : TcpServer) (o : Option Conn)
    → IsConsistent s
    → lookup k s.objects ≡ o
    → Place k s.pool.base_loop o (member k s.connections) (pending_for k s.pending)
known_at k s o v found =
    subst (λ x. Place k s.pool.base_loop x (member k s.connections) (pending_for k s.pending)) found
      (v.places k)

-- The same but for one connection, which is in use.
pub record IsConsistentBut (k : ℕ) (s : TcpServer) : Type 0 where
  pub places : (j : ℕ) → (k == j) ≡ false → PlaceIn j s
  pub unused : (j : ℕ) → (k == j) ≡ false → s.next_conn_id ≤ j → lookup j s.objects ≡ none
  pub used : k < s.next_conn_id
  pub ready : IsReady s.pool

pub complete : (k : ℕ) (s : TcpServer) → IsConsistentBut k s → PlaceIn k s → IsConsistent s
complete k s v p = record {
  places = λ j. elim (Bool-cases (k == j)) [
    | inl same ↦ subst (λ i. PlaceIn i s) ((==_iff k j).0 same) p
    | inr other ↦ v.places j other
  ];
  unused = λ j h. elim (Bool-cases (k == j)) [
    | inl same ↦ absurd (omega (arith, (==_iff k j).0 same, v.used))
    | inr other ↦ v.unused j other h
  ];
  ready = v.ready;
}

pub but-object :
    (k : ℕ) (c : Conn) (s : TcpServer) → IsConsistentBut k s → IsConsistentBut k (set_object k c s)
unfolding set_object
but-object k c s v = record {
  places = λ j ne. rw (lookup-insert k j c s.objects, ne) (v.places j ne);
  unused = λ j ne h. rw (lookup-insert k j c s.objects, ne) (v.unused j ne h);
  used = v.used;
  ready = v.ready;
}

pub but-queue :
    (l : ℕ) (f : Functor) (s : TcpServer)
    → IsConsistentBut (target f) s
    → IsConsistentBut (target f) (queue_in l f s)
unfolding queue_in pending_for
but-queue l f s v = record {
  places = λ j ne.
      rw (pending_for-append j s.pending ((l, f) ∷ []), ne, append-nil (pending_for j s.pending))
        (v.places j ne);
  unused = v.unused;
  used = v.used;
  ready = v.ready;
}

pub but-erase :
    (k : ℕ) (s : TcpServer)
    → IsConsistentBut k s
    → IsConsistentBut k (record s { connections = erase k s.connections })
but-erase k s v = record {
  places = λ j ne. rw (lookup-erase k j s.connections, ne) (v.places j ne);
  unused = v.unused;
  used = v.used;
  ready = v.ready;
}
