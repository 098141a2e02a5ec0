-- ===== src/Connections.antt =====
-- HPGateway/src/gateway/ConnectionManager.h and ConnectionManager.cpp. A connection object is known
-- by a reference; whether its `weak_ptr` can still be locked is asked of `alive`. Each method holds
-- the mutex from its first line to its last, so a method is one step.
pub mod Ids
mod Tests
use chater.Common.{
  ℕ, ◌+◌, ◌%◌, ◌≡◌, Bool, true, false, Option, none, some, List, [], ◌∷◌, ◌++◌, length,
  if◌then◌else◌, size_mod,
}
use chater.Common.Maps.{Map, lookup, insert, erase}

pub record ConnectionManager : Type 0 where
  pub connections : Map ℕ
  pub next_conn_id : ℕ

unfoldable pub no_connections : ConnectionManager
no_connections = record { connections = []; next_conn_id = 1 }

-- `fetch_add` on the 64-bit counter wraps.
unfoldable pub add_connection : ℕ → ConnectionManager → ℕ × ConnectionManager
add_connection conn m = (
  m.next_conn_id,
  record {
    connections = insert m.next_conn_id conn m.connections;
    next_conn_id = (m.next_conn_id + 1) % size_mod;
  },
)

unfoldable pub remove_connection : ℕ → ConnectionManager → ConnectionManager
remove_connection id m = record m { connections = erase id m.connections }

-- Bytes handed to `Send` of a connection object.
pub record Sent : Type 0 where
  pub conn : ℕ
  pub bytes : List ℕ

module _ (alive : ℕ → Bool) where
  unfoldable pub lock : ℕ → Option ℕ
  lock conn = if alive conn then some conn else none

  unfoldable pub get_connection : ℕ → ConnectionManager → Option ℕ
  unfolding lock
  get_connection id m = elim (lookup id m.connections) [ none ↦ none | some conn ↦ lock conn ]

  unfoldable pub send_to_client : ℕ → List ℕ → ConnectionManager → Bool × List Sent
  unfolding get_connection
  send_to_client id bytes m = elim (get_connection id m) [
    | none ↦ (false, [])
    | some conn ↦ (true, record { conn = conn; bytes = bytes } ∷ [])
  ]

  unfoldable pub broadcast_to : List ℕ → Map ℕ → List Sent
  broadcast_to bytes [] = []
  broadcast_to bytes ((id, conn) ∷ m) =
      let rest = broadcast_to bytes m in
      if alive conn then record { conn = conn; bytes = bytes } ∷ rest else rest

  -- `allOk` is never set to false.
  unfoldable pub broadcast : List ℕ → ConnectionManager → Bool × List Sent
  unfolding broadcast_to
  broadcast bytes m = (true, broadcast_to bytes m.connections)

unfoldable pub connection_count : ConnectionManager → ℕ
connection_count m = length m.connections
