-- ===== src/TcpServer/Stages.antt =====
-- The life of one connection of HPGateway/src/net/TcpServer.cpp, and that it is in step with the table
-- of connections and with the functors that wait.
use chater.Common.{ℕ, ◌≡◌, refl, ap, Bool, true, false, some, List, [], ◌∷◌, ◌++◌, arith}
use chater.Channel.{is_none_event, remove, disable_all, enable_reading}
use chater.TcpConnection.{
  TcpConnection, State, connecting, connected, disconnected, is_open, connect_established,
  connect_destroyed, handle_close, Outcome, Action, connection_callback, close_callback,
}
use chater.TcpServer.{Functor, establish, remove_in_loop, destroy, Conn}
use chater.TcpServer.Queue.{only_one, not_none}

-- Nothing more can be done with the object but to destroy it.
abbrev pub IsShut : TcpConnection → Type 0
IsShut o = (o.state ≡ disconnected) × (is_none_event o.channel ≡ true)

-- Where a connection is: `m` tells whether the server still has it, `fs` are the functors for it.
pub data Stage (k base : ℕ) (c : Conn) (m : Bool) (fs : List (ℕ × Functor)) : Type 0 where
  fresh :
      c.object.state ≡ connecting → m ≡ true → fs ≡ (c.loop, establish k) ∷ [] → Stage k base c m fs
  up : is_open c.object.state ≡ true → m ≡ true → fs ≡ [] → Stage k base c m fs
  closed : IsShut c.object → m ≡ true → fs ≡ (base, remove_in_loop k) ∷ [] → Stage k base c m fs
  removed : IsShut c.object → m ≡ false → fs ≡ (c.loop, destroy k) ∷ [] → Stage k base c m fs
  gone : IsShut c.object → m ≡ false → fs ≡ [] → Stage k base c m fs

-- The operations of the object at the stages where they are called.
abbrev pub Gives : Outcome → (TcpConnection → Type 0) → Type 0
Gives outcome P = (o : TcpConnection) × (acts : List Action) × (outcome ≡ some (o, acts)) × P o

pub established_lem :
    (o : TcpConnection)
    → o.state ≡ connecting
    → Gives (connect_established o) (λ x. is_open x.state ≡ true)
unfolding connect_established
established_lem o h = (
  record o { state = connected; channel = enable_reading o.channel },
  connection_callback true ∷ [],
  simp (connect_established, h) refl,
  refl,
)

pub closed_lem : (o : TcpConnection) → is_open o.state ≡ true → Gives (handle_close o) IsShut
unfolding handle_close disable_all is_none_event
closed_lem o h = (
  record o { state = disconnected; channel = disable_all o.channel },
  connection_callback false ∷ close_callback ∷ [],
  simp (handle_close, h) refl,
  (refl, refl),
)

pub destroyed_lem : (o : TcpConnection) → IsShut o → Gives (connect_destroyed o) IsShut
unfolding connect_destroyed remove is_none_event
destroyed_lem o (h, k) = (
  record o { channel = record { events = o.channel.events; added_to_loop = false } },
  [],
  simp (connect_destroyed, remove, h, k) refl,
  (h, k),
)

-- Which functor waits tells the stage.
kind : Functor → ℕ
kind (establish k) = 0
kind (remove_in_loop k) = 1
kind (destroy k) = 2

other_kind :
    {B : Type 0} (before after : List (ℕ × Functor)) (x y : ℕ × Functor)
    → before ++ x ∷ after ≡ y ∷ []
    → (kind x.1 ≡ kind y.1 → ⊥)
    → B
other_kind before after x y e ne = absurd (ne (ap (λ z. kind z.1) (only_one before after x y e).0))

module _ (k base l : ℕ) (c : Conn) (m : Bool) (before after : List (ℕ × Functor)) where
  pub establish-fresh :
      Stage k base c m (before ++ (l, establish k) ∷ after)
      → (c.object.state ≡ connecting) × (m ≡ true) × (before ++ after ≡ [])
  unfolding kind
  establish-fresh (fresh st h e) = (st, h, (only_one before after _ _ e).1)
  establish-fresh (up st h e) = not_none before after _ e
  establish-fresh (closed st h e) = other_kind before after _ _ e (λ q. omega arith)
  establish-fresh (removed st h e) = other_kind before after _ _ e (λ q. omega arith)
  establish-fresh (gone st h e) = not_none before after _ e

  pub remove-closed :
      Stage k base c m (before ++ (l, remove_in_loop k) ∷ after)
      → IsShut c.object × (m ≡ true) × (before ++ after ≡ [])
  unfolding kind
  remove-closed (fresh st h e) = other_kind before after _ _ e (λ q. omega arith)
  remove-closed (up st h e) = not_none before after _ e
  remove-closed (closed st h e) = (st, h, (only_one before after _ _ e).1)
  remove-closed (removed st h e) = other_kind before after _ _ e (λ q. omega arith)
  remove-closed (gone st h e) = not_none before after _ e

  pub destroy-removed :
      Stage k base c m (before ++ (l, destroy k) ∷ after)
      → IsShut c.object × (m ≡ false) × (before ++ after ≡ [])
  unfolding kind
  destroy-removed (fresh st h e) = other_kind before after _ _ e (λ q. omega arith)
  destroy-removed (up st h e) = not_none before after _ e
  destroy-removed (closed st h e) = other_kind before after _ _ e (λ q. omega arith)
  destroy-removed (removed st h e) = (st, h, (only_one before after _ _ e).1)
  destroy-removed (gone st h e) = not_none before after _ e

not_open : {B : Type 0} (t u : State) → t ≡ u → is_open u ≡ false → is_open t ≡ true → B
not_open t u e c o = absurd (ground (arith, ap is_open e, c, o))

-- An open connection is in the table, and no functor waits for it.
pub open-up :
    (k base : ℕ) (c : Conn) (m : Bool) (fs : List (ℕ × Functor))
    → Stage k base c m fs
    → is_open c.object.state ≡ true
    → (m ≡ true) × (fs ≡ [])
open-up k base c m fs (fresh st h e) o = not_open c.object.state connecting st refl o
open-up k base c m fs (up st h e) o = (h, e)
open-up k base c m fs (closed st h e) o = not_open c.object.state disconnected st.0 refl o
open-up k base c m fs (removed st h e) o = not_open c.object.state disconnected st.0 refl o
open-up k base c m fs (gone st h e) o = not_open c.object.state disconnected st.0 refl o
