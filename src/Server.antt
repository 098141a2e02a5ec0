-- ===== src/Server.antt =====
-- HPGateway/src/gateway/GatewayServer.h and GatewayServer.cpp: the handlers of the gateway over the
-- connection manager, the session manager and the table of heartbeats. They run in one thread.
-- `now` is the clock in milliseconds; a connection object is known by a reference.
pub mod Sweep
pub mod Steps
pub mod Consistent
pub mod Preserved
pub mod Lost
pub mod Reached
pub mod Packets
pub mod Lifetime
mod Tests
use chater.Common.{
  ℕ, ◌+◌, ◌*◌, ◌/◌, ◌%◌, ◌^◌, ◌≡◌, Bool, true, false, ◌&&◌, Option, none, some, List, [], ◌∷◌, ◌++◌,
  ltb, ◌==◌, if◌then◌else◌, map,
}
use chater.Common.Maps.{Map, lookup, insert, erase, member}
use chater.Packet.{Packet, PacketHeader, header_bytes, header_length, u32_mod}
use chater.Packet.Commands.{cmd_heartbeat_req, cmd_heartbeat_rsp}
use chater.RingBuffer.{RingBuffer}
use chater.Codec
use chater.Codec.{Received, finished, faulted, exhausted}
use chater.Sessions.{Sessions, add_session, remove_session}
use chater.Connections.{
  ConnectionManager, no_connections, add_connection, remove_connection, get_connection,
  send_to_client, Sent,
}

-- What the handlers see of a `TcpConnection`: `Connected()` and `GetConnId()`.
pub record ConnObject : Type 0 where
  pub is_up : Bool
  pub conn_id : ℕ

pub record Server : Type 0 where
  pub connections : ConnectionManager
  pub sessions : Sessions
  pub last_heartbeats : Map ℕ
  pub objects : Map ConnObject
  pub heartbeat_timeout_sec : ℕ
  pub has_spi : Bool

-- A fresh server with its configured timeout.
unfoldable pub new_server : ℕ → Bool → Server
new_server timeout spi = record {
  connections = no_connections;
  sessions = [];
  last_heartbeats = [];
  objects = [];
  heartbeat_timeout_sec = timeout;
  has_spi = spi;
}

pub data Effect : Type 0 where
  sends : Sent → Effect
  submits : Packet → ℕ → Effect
  tells_spi : Packet → ℕ → Effect
  force_closes : ℕ → Effect

-- A reference can be locked while its object exists.
abbrev pub is_alive : Server → ℕ → Bool
is_alive s ref = member ref s.objects

-- `connId > 0` on a signed 64-bit number.
unfoldable pub is_positive : ℕ → Bool
is_positive id = ltb 0 id && ltb id (2 ^ 63)

unfoldable pub connection_up : ℕ → ConnObject → ℕ → Server → Server
connection_up ref o now s =
    let (id, manager) = add_connection ref s.connections in
    record s {
      connections = manager;
      objects = insert ref (record o { conn_id = id }) s.objects;
      sessions = (add_session id now s.sessions).1;
      last_heartbeats = insert id now s.last_heartbeats;
    }

unfoldable pub connection_down : ℕ → Server → Server
connection_down id s =
    if is_positive id
    then record s {
      connections = remove_connection id s.connections;
      sessions = (remove_session id s.sessions).1;
      last_heartbeats = erase id s.last_heartbeats;
    }
    else s

-- `OnConnection`.
unfoldable pub on_connection : ℕ → ℕ → Server → Server
on_connection ref now s = elim (lookup ref s.objects) [
  | none ↦ s
  | some o ↦ if o.is_up then connection_up ref o now s else connection_down o.conn_id s
]

-- The header of the answer to a heartbeat request.
unfoldable pub heartbeat_rsp : Packet → PacketHeader
heartbeat_rsp packet = record {
  length = header_length;
  cmd = cmd_heartbeat_rsp;
  flag = 0;
  seq = packet.header.seq;
}

-- `OnPacket`; the interface for the application gets the id as an `int`.
unfoldable pub on_packet : Packet → ℕ → Server → List Effect
on_packet packet conn_id s =
    if packet.header.cmd == cmd_heartbeat_req
    then map sends
        (send_to_client (is_alive s) conn_id (header_bytes (heartbeat_rsp packet)) s.connections).1
    else submits packet conn_id
      ∷ (if s.has_spi then tells_spi packet (conn_id % u32_mod) ∷ [] else [])

unfoldable pub on_packets : List Packet → ℕ → Server → List Effect
on_packets [] conn_id s = []
on_packets (p ∷ ps) conn_id s = on_packet p conn_id s ++ on_packets ps conn_id s

-- The heartbeat of a connection that sends anything.
unfoldable pub touch : ℕ → ℕ → Server → Server
touch id now s =
    if is_positive id then record s { last_heartbeats = insert id now s.last_heartbeats } else s

-- What a run of the codec's loop for a connection comes to: its packets go to `OnPacket`, and a
-- packet that is too long closes the connection.
unfoldable pub handled :
    ℕ → ConnObject → Server → Codec.Run → Option (Server × RingBuffer × List Effect)
handled ref o s (finished r) = some (
  s,
  r.left,
  on_packets r.packets o.conn_id s ++ (if r.force_closed then force_closes ref ∷ [] else []),
)
handled ref o s faulted = none
handled ref o s exhausted = none

-- `OnMessage`: the time is noted, and the codec's loop runs. The result is `none` if the loop faults
-- or does not end.
unfoldable pub on_message :
    ℕ → ℕ → ℕ → RingBuffer → Server → Option (Server × RingBuffer × List Effect)
on_message fuel ref now buf s = elim (lookup ref s.objects) [
  | none ↦ none
  | some o ↦ handled ref o (touch o.conn_id now s) (Codec.on_message fuel buf)
]

-- `now - last > timeoutMs` of the signed difference.
unfoldable pub is_expired : ℕ → ℕ → ℕ → Bool
is_expired timeout now last = ltb (last + timeout) now

-- The loop of `OnHeartbeat` over the table: an expired entry closes its connection, if that still
-- exists, and takes its session and itself away.
unfoldable pub sweep : (ℕ → Option ℕ) → ℕ → ℕ → Map ℕ → Sessions → Map ℕ × Sessions × List Effect
sweep find timeout now [] sessions = ([], sessions, [])
sweep find timeout now ((id, last) ∷ rest) sessions =
    let gone = is_expired timeout now last in
    let (kept, sessions', effects) =
      sweep find timeout now rest (if gone then (remove_session id sessions).1 else sessions) in
    (
      if gone then kept else (id, last) ∷ kept,
      sessions',
      if gone
          then elim (find id) [ none ↦ effects | some ref ↦ force_closes ref ∷ effects ]
          else effects,
    )

-- `OnHeartbeat`; the timeout is configured in seconds.
unfoldable pub on_heartbeat : ℕ → Server → Server × List Effect
on_heartbeat now s =
    let (kept, sessions, effects) =
      sweep (λ id. get_connection (is_alive s) id s.connections) (s.heartbeat_timeout_sec * 1000)
        now s.last_heartbeats s.sessions in
    (record s { last_heartbeats = kept; sessions = sessions }, effects)
