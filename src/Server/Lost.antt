-- ===== src/Server/Lost.antt =====
-- The consistency of the tables at a connection that goes down and ends.
use chater.Common.{ℕ, ◌≡◌, inl, inr, sym, subst, false, none, some, ◌==◌, arith}
use chater.Common.Maps.{option-cases, lookup, erase, lookup-insert, member-erase, erase-IsSorted}
use chater.Sessions.{remove_session}
use chater.Connections.{remove_connection}
use chater.Connections.Ids.{remove_connection_lem}
use chater.Server.{Server, ConnObject, is_positive, connection_down, on_connection}
use chater.Server.Steps.{close_object, closing, ends}
use chater.Server.Consistent.{
  IsConsistent, is_at, has_id, is_at-erase, has_id-erase, conn_id_bounds, mapped,
}
use chater.Server.Preserved.{closing-has_id, has_id_absent}

-- An object that is not known leaves everything but itself as it was.
lost_unknown :
    (ref now : ℕ) (s : Server)
    → lookup ref s.objects ≡ none
    → ends ref (on_connection ref now (closing ref s))
      ≡ record s { objects = erase ref (close_object ref s.objects) }
unfolding ends closing close_object on_connection
lost_unknown ref now s e = ground (arith, e)

lost_known :
    (ref now : ℕ) (o : ConnObject) (s : Server)
    → IsConsistent s
    → lookup ref s.objects ≡ some o
    → ends ref (on_connection ref now (closing ref s)) ≡ record s {
      connections = remove_connection o.conn_id s.connections;
      sessions = (remove_session o.conn_id s.sessions).1;
      last_heartbeats = erase o.conn_id s.last_heartbeats;
      objects = erase ref (close_object ref s.objects);
    }
unfolding ends closing close_object on_connection connection_down is_positive
lost_known ref now o s c e =
    let (low, high) = conn_id_bounds s c ref o e in
    ground (
      arith,
      e,
      c.counter,
      lookup-insert ref ref (record { is_up = false; conn_id = o.conn_id }) s.objects,
    )

unknown-IsConsistent :
    (ref : ℕ) (s : Server)
    → IsConsistent s
    → lookup ref s.objects ≡ none
    → IsConsistent (record s { objects = erase ref (close_object ref s.objects) })
unknown-IsConsistent ref s c e = record {
  valid = c.valid;
  counter = c.counter;
  owns = λ id r. ground (
    arith,
    has_id-erase r id ref (close_object ref s.objects),
    closing-has_id ref r id s.objects,
    c.owns id r,
    has_id_absent ref id s.objects (ground (arith, e)),
  );
  beats_sorted = c.beats_sorted;
  sessions_sorted = c.sessions_sorted;
  beating = c.beating;
  serving = c.serving;
}

known-IsConsistent :
    (ref : ℕ) (o : ConnObject) (s : Server)
    → IsConsistent s
    → lookup ref s.objects ≡ some o
    → IsConsistent (record s {
      connections = remove_connection o.conn_id s.connections;
      sessions = (remove_session o.conn_id s.sessions).1;
      last_heartbeats = erase o.conn_id s.last_heartbeats;
      objects = erase ref (close_object ref s.objects);
    })
unfolding remove_connection remove_session is_at has_id
known-IsConsistent ref o s c e = record {
  valid = (remove_connection_lem o.conn_id 0 s.connections c.valid).0;
  counter = c.counter;
  owns = λ id r. ground (
    arith,
    is_at-erase id r o.conn_id s.connections.connections,
    has_id-erase r id ref (close_object ref s.objects),
    closing-has_id ref r id s.objects,
    c.owns id r,
    at_id id r,
    of_ref id r,
  );
  beats_sorted = erase-IsSorted o.conn_id 1 s.last_heartbeats c.beats_sorted;
  sessions_sorted = erase-IsSorted o.conn_id 1 s.sessions c.sessions_sorted;
  beating = λ id h. ground (
    arith,
    member-erase o.conn_id id s.last_heartbeats,
    member-erase o.conn_id id s.connections.connections,
    c.beating id,
  );
  serving = λ id h. ground (
    arith,
    member-erase o.conn_id id s.last_heartbeats,
    member-erase o.conn_id id s.sessions,
    c.serving id,
  );
}
  where
    at_id : (id r : ℕ) → o.conn_id ≡ id → is_at id r s.connections.connections ≡ (ref == r)
    at_id id r i = ground (arith, mapped s c ref o e)

    of_ref : (id r : ℕ) → ref ≡ r → has_id r id s.objects ≡ (o.conn_id == id)
    of_ref id r i = ground (arith, e)

pub lost-IsConsistent :
    (ref now : ℕ) (s : Server)
    → IsConsistent s
    → IsConsistent (ends ref (on_connection ref now (closing ref s)))
lost-IsConsistent ref now s c = elim (option-cases (lookup ref s.objects)) [
  | inl e ↦ subst IsConsistent (sym (lost_unknown ref now s e)) (unknown-IsConsistent ref s c e)
  | inr (o, e) ↦
      subst IsConsistent (sym (lost_known ref now o s c e)) (known-IsConsistent ref o s c e)
]
