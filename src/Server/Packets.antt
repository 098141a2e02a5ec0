-- ===== src/Server/Packets.antt =====
-- What the gateway does with the packets that its codec cuts from a connection's bytes.
use chater.Common.{
  ℕ, ◌<◌, ◌≡◌, refl, ap, ◌∙◌, Bool, some, List, [], ◌∷◌, ◌++◌, ◌^◌, subst, lt→ltb, append-nil,
  length, ◌==◌, if◌then◌else◌, arith,
}
use chater.Common.Maps.{lookup, insert}
use chater.RingBuffer.{RingBuffer}
use chater.RingBuffer.Invariant.{IsValid}
use chater.RingBuffer.Contents.{contents}
use chater.Packet.{Packet, header_bytes}
use chater.Packet.Answers.{answer_bytes, header_bytes-answer}
use chater.Codec.Stream.{stream, AllFrames, IsPartial, on_message-Cuts}
use chater.Connections.{Sent, get_connection, send_to_client}
use chater.Server.{
  Server, ConnObject, Effect, sends, submits, heartbeat_rsp, on_packet, on_packets, touch, handled,
  on_message, is_alive, new_server, is_positive,
}
use chater.Server.Steps.{Reachable}
use chater.Server.Consistent.{get_connection-IsConsistent, conn_id_bounds}
use chater.Server.Preserved.{touch-IsConsistent}
use chater.Server.Reached.{Reachable-IsConsistent}

-- The packets for the workers, with the id that comes along.
unfoldable pub submitted : List Effect → List (Packet × ℕ)
submitted [] = []
submitted (submits p id ∷ es) = (p, id) ∷ submitted es
submitted (_ ∷ es) = submitted es

-- What is sent.
unfoldable pub answered : List Effect → List Sent
answered [] = []
answered (sends m ∷ es) = m ∷ answered es
answered (_ ∷ es) = answered es

-- The packets that are no heartbeat requests, for a connection; the command of such a request is 0xF001.
unfoldable pub work : ℕ → List Packet → List (Packet × ℕ)
work id [] = []
work id (p ∷ ps) = let rest = work id ps in if p.header.cmd == 0xF001 then rest else (p, id) ∷ rest

-- The answers to the heartbeat requests, to this object, with their sequence numbers.
unfoldable pub answers : ℕ → List Packet → List Sent
answers ref [] = []
answers ref (p ∷ ps) =
    let rest = answers ref ps in
    if p.header.cmd == 0xF001
    then record { conn = ref; bytes = answer_bytes p.header.seq } ∷ rest
    else rest

answer_lem : (p : Packet) → header_bytes (heartbeat_rsp p) ≡ answer_bytes p.header.seq
unfolding heartbeat_rsp
answer_lem p = header_bytes-answer p.header.seq

module _ (ref id : ℕ) (s : Server)
    (found : get_connection (is_alive s) id s.connections ≡ some ref) where
  on_packet-submitted :
      (p : Packet) (es : List Effect)
      → submitted (on_packet p id s ++ es) ≡ work id (p ∷ []) ++ submitted es
  unfolding on_packet submitted work send_to_client
  on_packet-submitted p es = ground (arith, found)

  on_packet-answered :
      (p : Packet) (es : List Effect)
      → answered (on_packet p id s ++ es) ≡ answers ref (p ∷ []) ++ answered es
  unfolding on_packet answered answers send_to_client
  on_packet-answered p es = ground (arith, found, answer_lem p)

  on_packets-submitted : (ps : List Packet) → submitted (on_packets ps id s) ≡ work id ps
  unfolding on_packets work submitted
  on_packets-submitted [] = refl
  on_packets-submitted (p ∷ ps) =
      ground (arith, on_packet-submitted p (on_packets ps id s), on_packets-submitted ps)

  on_packets-answered : (ps : List Packet) → answered (on_packets ps id s) ≡ answers ref ps
  unfolding on_packets answers answered
  on_packets-answered [] = refl
  on_packets-answered (p ∷ ps) =
      ground (arith, on_packet-answered p (on_packets ps id s), on_packets-answered ps)

touch_lem :
    (id now : ℕ) (s : Server)
    → 0 < id
    → id < 2 ^ 63
    → touch id now s ≡ record s { last_heartbeats = insert id now s.last_heartbeats }
unfolding touch is_positive
touch_lem id now s h k = rw (lt→ltb 0 id h, lt→ltb id (2 ^ 63) k) refl

touch-objects : (id now : ℕ) (s : Server) → (touch id now s).objects ≡ s.objects
unfolding touch
touch-objects id now s = ground arith

-- In a reachable state, when the input buffer of a connection holds the first bytes of a stream of
-- well-formed packets, `OnMessage` ends, given more fuel than packets, and notes the time under the connection's id. The packets
-- that are whole are the first ones of the stream: those of them that are no heartbeat requests go to
-- the workers, in order and with the connection's id, and each heartbeat request is answered to the
-- connection it came from, in order, with the 12 bytes of a bare header that
-- carries the command of a heartbeat answer and its sequence number.
pub on_message-answers :
    (timeout : ℕ) (spi : Bool) (s : Server)
    → Reachable (new_server timeout spi) s
    → (fuel ref now : ℕ) (o : ConnObject) → lookup ref s.objects ≡ some o
    → (ps : List Packet) (b : RingBuffer) (later : List ℕ) → IsValid b
    → AllFrames ps
    → contents b ++ later ≡ stream ps
    → length ps < fuel
    → (qs rs : List Packet) × (b' : RingBuffer) × (effects : List Effect) × (ps ≡ qs ++ rs)
      × (on_message fuel ref now b s
          ≡ some
              (record s { last_heartbeats = insert o.conn_id now s.last_heartbeats }, b', effects))
      × (contents b' ++ later ≡ stream rs)
      × IsPartial (contents b') rs
      × (submitted effects ≡ work o.conn_id qs)
      × (answered effects ≡ answers ref qs)
unfolding on_message handled
on_message-answers timeout spi s r fuel ref now o known ps b later v fs l hf =
    let (qs, rs, b', parts, ran, valid, ahead, partial, frames, kept) =
      on_message-Cuts ps b later fuel v fs l hf in
    (
      qs,
      rs,
      b',
      on_packets qs o.conn_id s' ++ [],
      parts,
      subst (λ t. on_message fuel ref now b s ≡ some (t, b', on_packets qs o.conn_id s' ++ []))
          noted (ground (arith, known, ran)),
      ahead,
      partial,
      ap submitted (append-nil (on_packets qs o.conn_id s'))
          ∙ on_packets-submitted ref o.conn_id s' found qs,
      ap answered (append-nil (on_packets qs o.conn_id s'))
          ∙ on_packets-answered ref o.conn_id s' found qs,
    )
  where
    s' : Server
    s' = touch o.conn_id now s

    found : get_connection (is_alive s') o.conn_id s'.connections ≡ some ref
    found =
        get_connection-IsConsistent s'
          (touch-IsConsistent ref now o s (Reachable-IsConsistent timeout spi s r) known) ref o
          (ap (lookup {V = ConnObject} ref) (touch-objects o.conn_id now s) ∙ known)

    noted : s' ≡ record s { last_heartbeats = insert o.conn_id now s.last_heartbeats }
    noted =
        let c = Reachable-IsConsistent timeout spi s r in
        let (positive, below) = conn_id_bounds s c ref o known in
        touch_lem o.conn_id now s positive (omega (arith, below, c.counter))
