-- ===== src/Server/Preserved.antt =====
-- The consistency of the tables at each step of the gateway, but for a connection that ends.
use chater.Common.{
  ℕ, ◌+◌, ◌*◌, ◌≤◌, ◌<◌, ◌^◌, ◌≡◌, inl, inr, refl, sym, ◌∙◌, subst, Bool, true, false, Option, none,
  some, ◌==◌, if◌then◌else◌, arith,
}
use chater.Common.Maps.{
  option-cases, Map, lookup, insert, member, IsSorted, lookup-insert, member-insert,
  insert-IsSorted,
}
use chater.Sessions.{Sessions, fresh_session, add_session}
use chater.Connections.{add_connection, no_connections, get_connection}
use chater.Connections.Ids.{no_connections-IsValid, add_connection_lem}
use chater.Server.{
  Server, ConnObject, new_server, is_positive, connection_up, on_connection, touch, on_heartbeat,
  is_alive,
}
use chater.Server.Steps.{appears, close_object, closing}
use chater.Server.Sweep.{on_heartbeat_lem, sweep-kept-IsSorted, sweep-sessions-IsSorted}
use chater.Server.Consistent.{
  IsConsistent, is_at, has_id, is_at-insert, has_id-insert, conn_id_bounds, mapped,
}

pub new_server-IsConsistent : (timeout : ℕ) (spi : Bool) → IsConsistent (new_server timeout spi)
unfolding new_server lookup is_at has_id no_connections
new_server-IsConsistent timeout spi = record {
  valid = no_connections-IsValid;
  counter = omega arith;
  owns = λ id ref. refl;
  beats_sorted = tt;
  sessions_sorted = tt;
  beating = λ id h. absurd (ground arith);
  serving = λ id h. absurd (ground arith);
}

pub has_id_absent :
    (ref id : ℕ) (m : Map ConnObject) → member ref m ≡ false → has_id ref id m ≡ false
unfolding has_id
has_id_absent ref id m h = ground (arith, h)

is_at_absent : (id ref : ℕ) (m : Map ℕ) → lookup id m ≡ none → is_at id ref m ≡ false
unfolding is_at
is_at_absent id ref m h = ground (arith, h)

add_session-IsSorted :
    (id now : ℕ) (m : Sessions) → 1 ≤ id → IsSorted 1 m → IsSorted 1 (add_session id now m).1
unfolding add_session
add_session-IsSorted id now m p s =
    ground (arith, insert-IsSorted id 1 (fresh_session id now) m p s)

add_session-member :
    (id j now : ℕ) (m : Sessions)
    → member j (add_session id now m).1 ≡ (if id == j then true else member j m)
unfolding add_session
add_session-member id j now m = ground (arith, member-insert id j (fresh_session id now) m)

abbrev newcomer : ConnObject
newcomer = record { is_up = true; conn_id = 0 }

-- The callback of an object that has just appeared takes the branch of a connection that is up.
accepted_lem :
    (ref now : ℕ) (s : Server)
    → on_connection ref now (appears ref s) ≡ connection_up ref newcomer now (appears ref s)
unfolding on_connection appears
accepted_lem ref now s = ground (arith, lookup-insert ref ref newcomer s.objects)

connection_up-IsConsistent :
    (ref now : ℕ) (s : Server)
    → IsConsistent s
    → member ref s.objects ≡ false
    → s.connections.next_conn_id + 1 < 2 ^ 63
    → IsConsistent (connection_up ref newcomer now (appears ref s))
unfolding connection_up appears add_connection add_session
connection_up-IsConsistent ref now s c fresh room = record {
  valid = (add_connection_lem ref 0 s.connections c.valid room).0;
  counter = omega arith;
  owns = λ id r. ground (
    arith,
    is_at-insert id r new ref s.connections.connections,
    has_id-insert r id ref (record { is_up = true; conn_id = new }) (insert ref newcomer s.objects),
    has_id-insert r id ref newcomer s.objects,
    c.owns id r,
    absent id r,
    unused r,
  );
  beats_sorted = insert-IsSorted new 1 now s.last_heartbeats c.valid.positive c.beats_sorted;
  sessions_sorted = add_session-IsSorted new now s.sessions c.valid.positive c.sessions_sorted;
  beating = λ id h. ground (
    arith,
    member-insert new id ref s.connections.connections,
    member-insert new id now s.last_heartbeats,
    c.beating id,
  );
  serving = λ id h. ground (
    arith,
    member-insert new id now s.last_heartbeats,
    add_session-member new id now s.sessions,
    c.serving id,
  );
}
  where
    new : ℕ
    new = s.connections.next_conn_id

    absent : (id r : ℕ) → ref ≡ r → has_id r id s.objects ≡ false
    absent id r e = has_id_absent r id s.objects (ground (arith, fresh))

    unused : (r : ℕ) → is_at new r s.connections.connections ≡ false
    unused r =
        is_at_absent new r s.connections.connections
          (add_connection_lem ref 0 s.connections c.valid room).2

pub closing-has_id :
    (ref r id : ℕ) (m : Map ConnObject) → has_id r id (close_object ref m) ≡ has_id r id m
unfolding close_object has_id
closing-has_id ref r id m = elim (option-cases (lookup ref m)) [
  | inl n ↦ ground arith
  | inr (o, e) ↦ ground (arith, lookup-insert ref r (record o { is_up = false }) m)
]

pub closing-IsConsistent : (ref : ℕ) (s : Server) → IsConsistent s → IsConsistent (closing ref s)
unfolding closing
closing-IsConsistent ref s c = record {
  valid = c.valid;
  counter = c.counter;
  owns = λ id r. c.owns id r ∙ sym (closing-has_id ref r id s.objects);
  beats_sorted = c.beats_sorted;
  sessions_sorted = c.sessions_sorted;
  beating = c.beating;
  serving = c.serving;
}

touch_lem :
    (ref now : ℕ) (o : ConnObject) (s : Server)
    → IsConsistent s
    → lookup ref s.objects ≡ some o
    → touch o.conn_id now s ≡ record s { last_heartbeats = insert o.conn_id now s.last_heartbeats }
unfolding touch is_positive
touch_lem ref now o s c found =
    let (low, high) = conn_id_bounds s c ref o found in ground (arith, c.counter)

pub touch-IsConsistent :
    (ref now : ℕ) (o : ConnObject) (s : Server)
    → IsConsistent s
    → lookup ref s.objects ≡ some o
    → IsConsistent (touch o.conn_id now s)
touch-IsConsistent ref now o s c found =
    subst IsConsistent (sym (touch_lem ref now o s c found)) (record {
      valid = c.valid;
      counter = c.counter;
      owns = c.owns;
      beats_sorted =
          insert-IsSorted o.conn_id 1 now s.last_heartbeats (conn_id_bounds s c ref o found).0
            c.beats_sorted;
      sessions_sorted = c.sessions_sorted;
      beating = λ id h. ground (
        arith,
        member-insert o.conn_id id now s.last_heartbeats,
        c.beating id,
        mapped s c ref o found,
      );
      serving =
          λ id h. ground (arith, member-insert o.conn_id id now s.last_heartbeats, c.serving id);
    })

pub on_heartbeat-IsConsistent :
    (now : ℕ) (s : Server) → IsConsistent s → IsConsistent (on_heartbeat now s).0
unfolding on_heartbeat
on_heartbeat-IsConsistent now s c = record {
  valid = c.valid;
  counter = c.counter;
  owns = c.owns;
  beats_sorted =
      sweep-kept-IsSorted find (s.heartbeat_timeout_sec * 1000) now 1 s.last_heartbeats s.sessions
        c.beats_sorted;
  sessions_sorted =
      sweep-sessions-IsSorted find (s.heartbeat_timeout_sec * 1000) now 1 s.last_heartbeats
        s.sessions c.sessions_sorted;
  beating = λ id h. ground (arith, (on_heartbeat_lem now id 0 s c.beats_sorted).0, c.beating id);
  serving = λ id h. ground (
    arith,
    (on_heartbeat_lem now id 0 s c.beats_sorted).0,
    (on_heartbeat_lem now id 0 s c.beats_sorted).1,
    c.serving id,
  );
}
  where
    find : ℕ → Option ℕ
    find id = get_connection (is_alive s) id s.connections

pub accepted-IsConsistent :
    (ref now : ℕ) (s : Server)
    → IsConsistent s
    → member ref s.objects ≡ false
    → s.connections.next_conn_id + 1 < 2 ^ 63
    → IsConsistent (on_connection ref now (appears ref s))
accepted-IsConsistent ref now s c fresh room =
    subst IsConsistent (sym (accepted_lem ref now s))
      (connection_up-IsConsistent ref now s c fresh room)
