-- ===== src/Server/Consistent.antt =====
-- What the tables of the gateway have to do with the connection objects that exist.
use chater.Common.{
  ℕ, ◌<◌, ◌^◌, ◌≡◌, refl, ap, Bool-cases, inl, inr, Bool, true, false, Option, none, some, [], ◌==◌,
  if◌then◌else◌, arith,
}
use chater.Common.Maps.{
  Map, lookup, insert, erase, member, IsSorted, eq_nil_of_lookup, is_some, lookup_below,
  lookup-insert, lookup-erase,
}
use chater.Connections.{get_connection, lock}
use chater.Connections.Ids.{IsValid, lookup_above}
use chater.Server.{Server, ConnObject, is_alive}

-- The id is mapped to this object.
unfoldable pub is_at : ℕ → ℕ → Map ℕ → Bool
is_at id ref m = elim (lookup id m) [ none ↦ false | some r ↦ r == ref ]

-- The object exists and carries this id.
unfoldable pub has_id : ℕ → ℕ → Map ConnObject → Bool
has_id ref id objects = elim (lookup ref objects) [ none ↦ false | some o ↦ o.conn_id == id ]

pub is_at-insert :
    (id ref k v : ℕ) (m : Map ℕ)
    → is_at id ref (insert k v m) ≡ (if k == id then v == ref else is_at id ref m)
unfolding is_at
is_at-insert id ref k v m = ground (arith, lookup-insert k id v m)

pub is_at-erase :
    (id ref k : ℕ) (m : Map ℕ)
    → is_at id ref (erase k m) ≡ (if k == id then false else is_at id ref m)
unfolding is_at
is_at-erase id ref k m = ground (arith, lookup-erase k id m)

pub has_id-insert :
    (ref id k : ℕ) (o : ConnObject) (m : Map ConnObject)
    → has_id ref id (insert k o m) ≡ (if k == ref then o.conn_id == id else has_id ref id m)
unfolding has_id
has_id-insert ref id k o m = ground (arith, lookup-insert k ref o m)

pub has_id-erase :
    (ref id k : ℕ) (m : Map ConnObject)
    → has_id ref id (erase k m) ≡ (if k == ref then false else has_id ref id m)
unfolding has_id
has_id-erase ref id k m = ground (arith, lookup-erase k ref m)

-- Every object is in the connection table under its own id and nothing else is there; heartbeats
-- belong to connections, and sessions to heartbeats.
pub record IsConsistent (s : Server) : Type 0 where
  pub valid : IsValid s.connections
  pub counter : s.connections.next_conn_id < 2 ^ 63
  pub owns : (id ref : ℕ) → is_at id ref s.connections.connections ≡ has_id ref id s.objects
  pub beats_sorted : IsSorted 1 s.last_heartbeats
  pub sessions_sorted : IsSorted 1 s.sessions
  pub beating :
      (id : ℕ) → member id s.last_heartbeats ≡ true → member id s.connections.connections ≡ true
  pub serving : (id : ℕ) → member id s.sessions ≡ true → member id s.last_heartbeats ≡ true

value_of : (o : Option ℕ) → is_some o ≡ true → (r : ℕ) × (o ≡ some r)
value_of none h = absurd (ground arith)
value_of (some r) h = (r, refl)

module _ (s : Server) (c : IsConsistent s) where
  -- An existing object is found under its id.
  pub get_connection-IsConsistent :
      (ref : ℕ) (o : ConnObject)
      → lookup ref s.objects ≡ some o
      → get_connection (is_alive s) o.conn_id s.connections ≡ some ref
  unfolding get_connection lock is_at has_id
  get_connection-IsConsistent ref o found = ground (arith, c.owns o.conn_id ref)

  pub conn_id_bounds :
      (ref : ℕ) (o : ConnObject)
      → lookup ref s.objects ≡ some o
      → (0 < o.conn_id) × (o.conn_id < s.connections.next_conn_id)
  unfolding is_at has_id
  conn_id_bounds ref o found = (
    ground (arith, c.owns o.conn_id ref, lookup_below o.conn_id 1 table c.valid.sorted),
    ground (
      arith,
      c.owns o.conn_id ref,
      lookup_above o.conn_id s.connections.next_conn_id table c.valid.below,
    ),
  )
    where
      table : Map ℕ
      table = s.connections.connections

  -- Its id is mapped to it.
  pub mapped :
      (ref : ℕ) (o : ConnObject)
      → lookup ref s.objects ≡ some o
      → lookup o.conn_id s.connections.connections ≡ some ref
  unfolding is_at has_id
  mapped ref o found = ground (arith, c.owns o.conn_id ref)

  pub nothing_left :
      s.objects ≡ []
      → (s.connections.connections ≡ []) × (s.last_heartbeats ≡ []) × (s.sessions ≡ [])
  unfolding is_at has_id lookup
  nothing_left none_left = (
    eq_nil_of_lookup s.connections.connections unmapped,
    eq_nil_of_lookup s.last_heartbeats silent,
    eq_nil_of_lookup s.sessions (λ id. ground (arith, silent id, c.serving id)),
  )
    where
      unmapped : (id : ℕ) → member id s.connections.connections ≡ false
      unmapped id = elim (Bool-cases (member id s.connections.connections)) [
        | inl m ↦
            let (r, found) = value_of (lookup id s.connections.connections) m in
            absurd (ground (arith, c.owns id r, ap (lookup {V = ConnObject} r) none_left))
        | inr n ↦ n
      ]

      silent : (id : ℕ) → member id s.last_heartbeats ≡ false
      silent id = ground (arith, unmapped id, c.beating id)
