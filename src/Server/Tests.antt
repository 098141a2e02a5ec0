-- ===== src/Server/Tests.antt =====
-- A run of the gateway with one connection, and its theorems at that run.
use chater.Common.{
  ℕ, ◌≡◌, ◌↔◌, refl, true, false, none, some, List, [], ◌∷◌, ◌++◌, if◌then◌else◌, arith, load,
}
use chater.Common.Maps.{lookup, insert, erase}
use chater.RingBuffer.{RingBuffer}
use chater.RingBuffer.Contents.{contents}
use chater.Packet.{Packet, packet_bytes, header_bytes}
use chater.Codec.Stream.{IsPartial, stream}
use chater.Connections.{no_connections, add_connection, get_connection}
use chater.Server.{
  Server, ConnObject, Effect, new_server, on_connection, connection_up, connection_down,
  is_positive, on_message, on_heartbeat, is_alive,
}
use chater.Server.Sweep.{on_heartbeat_lem, has_expired, closes}
use chater.Server.Steps.{
  appears, close_object, closing, ends, accepted, lost, Reachable, start, step,
}
use chater.Server.Consistent.{IsConsistent}
use chater.Server.Reached.{Reachable-IsConsistent, Reachable-empty}
use chater.Server.Packets.{on_message-answers, submitted, answered, work, answers}

abbrev fresh : Server
fresh = new_server 60 false

-- The object 7 connects at time 1000.
abbrev connected : Server
connected = on_connection 7 1000 (appears 7 fresh)

abbrev over : Server
over = ends 7 (on_connection 7 2000 (closing 7 connected))

connected-Reachable : Reachable fresh connected
unfolding new_server lookup no_connections
connected-Reachable = step start (accepted 7 1000 refl (omega arith))

over-Reachable : Reachable fresh over
over-Reachable = step connected-Reachable (lost 7 2000)

Reachable-IsConsistent_example : IsConsistent connected
Reachable-IsConsistent_example = Reachable-IsConsistent 60 false connected connected-Reachable

no_objects : over.objects ≡ []
unfolding ends on_connection closing close_object appears connection_up connection_down is_positive
    lookup insert erase new_server no_connections add_connection
no_objects = refl

Reachable-empty_example :
    (over.connections.connections ≡ []) × (over.last_heartbeats ≡ []) × (over.sessions ≡ [])
Reachable-empty_example = Reachable-empty 60 false over over-Reachable no_objects

-- At time 61001 the heartbeat of time 1000 is expired.
on_heartbeat_lem_example :
    let gone = has_expired 60000 61001 1 connected.last_heartbeats in
    let (s', effects) = on_heartbeat 61001 connected in
    (lookup 1 s'.last_heartbeats ≡ (if gone then none else lookup 1 connected.last_heartbeats))
    × (lookup 1 s'.sessions ≡ (if gone then none else lookup 1 connected.sessions))
    × (closes 7 effects ≡ true
        ↔ (j : ℕ) × (has_expired 60000 61001 j connected.last_heartbeats ≡ true)
          × (get_connection (is_alive connected) j connected.connections ≡ some 7))
    × (s'.connections ≡ connected.connections)
unfolding on_connection appears connection_up lookup insert new_server no_connections add_connection
on_heartbeat_lem_example = on_heartbeat_lem 61001 1 7 connected (omega arith)

-- The bytes of a heartbeat request.
abbrev request : Packet
request = record { header = record { length = 12; cmd = 0xF001; flag = 0; seq = 5 }; body = [] }

abbrev arrived : RingBuffer
arrived = record {
  buffer = 12 ∷ 0 ∷ 0 ∷ 0 ∷ 1 ∷ 0xF0 ∷ 0 ∷ 0 ∷ 5 ∷ 0 ∷ 0 ∷ 0 ∷ [];
  read_index = 0;
  write_index = 12;
}

abbrev numbered : ConnObject
numbered = record { is_up = true; conn_id = 1 }

on_message-answers_example :
    (qs rs : List Packet) × (b' : RingBuffer) × (effects : List Effect) × (request ∷ [] ≡ qs ++ rs)
    × (on_message 2 7 1500 arrived connected
        ≡ some (
          record connected { last_heartbeats = insert 1 1500 connected.last_heartbeats },
          b',
          effects,
        ))
    × (contents b' ++ [] ≡ stream rs)
    × IsPartial (contents b') rs
    × (submitted effects ≡ work 1 qs)
    × (answered effects ≡ answers 7 qs)
unfolding on_connection appears connection_up lookup insert new_server no_connections add_connection
    stream packet_bytes header_bytes load
on_message-answers_example =
    on_message-answers 60 false connected connected-Reachable 2 7 1500 numbered refl (request ∷ [])
      arrived [] (omega arith) (omega arith) refl (omega arith)
