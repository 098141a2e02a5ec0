-- ===== src/Connections/Ids.antt =====
-- The ids of `ConnectionManager` against the table of connections.
use chater.Common.{
  ℕ, ◌+◌, ◌%◌, ◌^◌, ◌≤◌, ◌<◌, ◌≡◌, refl, none, some, [], ◌∷◌, arith, ◌==◌, if◌then◌else◌,
}
use chater.Common.Maps.{
  Map, lookup, insert, erase, IsSorted, lookup-insert, lookup-erase, insert-IsSorted,
  erase-IsSorted, length-insert,
}
use chater.Connections.{
  ConnectionManager, no_connections, add_connection, remove_connection, connection_count,
}

-- All keys lie below `n`.
abbrev pub Below : ℕ → Map ℕ → Type 0
Below n [] = Unit {0}
Below n ((j, v) ∷ m) = (j < n) × Below n m

pub record IsValid (m : ConnectionManager) : Type 0 where
  pub sorted : IsSorted 1 m.connections
  pub below : Below m.next_conn_id m.connections
  pub positive : 0 < m.next_conn_id

Below-mono : {a b : ℕ} (m : Map ℕ) → a ≤ b → Below a m → Below b m
Below-mono [] h v = tt
Below-mono ((j, w) ∷ m) h v = (omega arith, Below-mono m h v.1)

insert-Below : (k n v : ℕ) (m : Map ℕ) → k < n → Below n m → Below n (insert k v m)
unfolding insert
insert-Below k n v [] h b = (h, tt)
insert-Below k n v ((j, w) ∷ m) h b = ground (arith, insert-Below k n v m)

erase-Below : (k n : ℕ) (m : Map ℕ) → Below n m → Below n (erase k m)
unfolding erase
erase-Below k n [] b = tt
erase-Below k n ((j, w) ∷ m) b = ground (arith, erase-Below k n m)

pub lookup_above : (k n : ℕ) (m : Map ℕ) → Below n m → n ≤ k → lookup k m ≡ none
unfolding lookup
lookup_above k n [] b h = refl
lookup_above k n ((j, w) ∷ m) b h = ground (arith, lookup_above k n m b.1)

pub no_connections-IsValid : IsValid no_connections
unfolding no_connections
no_connections-IsValid = omega arith

-- While the signed 64-bit counter has not run out, `AddConnection` gives a positive id that no connection
-- has, maps it to the new connection, keeps every other entry, and counts one more.
pub add_connection_lem :
    (conn j : ℕ) (m : ConnectionManager)
    → IsValid m
    → m.next_conn_id + 1 < 2 ^ 63
    → let (id, m') = add_connection conn m in
      IsValid m'
      × (0 < id)
      × (lookup id m.connections ≡ none)
      × (lookup j m'.connections ≡ (if id == j then some conn else lookup j m.connections))
      × (connection_count m' ≡ connection_count m + 1)
unfolding add_connection connection_count
add_connection_lem conn j m v h = (
  record {
    sorted = insert-IsSorted id 1 conn m.connections v.positive v.sorted;
    below = rw wrap (
        insert-Below id (id + 1) conn m.connections (omega arith)
          (Below-mono {a = id} {b = id + 1} m.connections (omega arith) v.below));
    positive = omega arith;
  },
  v.positive,
  fresh,
  lookup-insert id j conn m.connections,
  ground (arith, length-insert id 1 conn m.connections v.sorted, fresh),
)
  where
    id : ℕ
    id = m.next_conn_id

    wrap : (id + 1) % 2 ^ 64 ≡ id + 1
    wrap = omega arith

    fresh : lookup id m.connections ≡ none
    fresh = lookup_above id id m.connections v.below (omega arith)

-- `RemoveConnection` keeps a valid table valid and takes away the entry of this id and no other.
pub remove_connection_lem :
    (id j : ℕ) (m : ConnectionManager)
    → IsValid m
    → IsValid (remove_connection id m)
      × (lookup j (remove_connection id m).connections
          ≡ (if id == j then none else lookup j m.connections))
unfolding remove_connection
remove_connection_lem id j m v = (
  record {
    sorted = erase-IsSorted id 1 m.connections v.sorted;
    below = erase-Below id m.next_conn_id m.connections v.below;
    positive = v.positive;
  },
  lookup-erase id j m.connections,
)
