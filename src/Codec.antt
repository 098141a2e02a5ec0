-- ===== src/Codec.antt =====
-- HPGateway/src/protocol/Codec.h and Codec.cpp: cutting the input buffer into packets, and
-- encoding them. The packets handed to `messageCallback_` are collected in their order.
pub mod Framing
pub mod Stream
pub mod Sending
pub mod Feed
pub mod Livelock
mod Tests
use chater.Common.{
  ℕ, zero, suc, ◌+◌, ◌-◌, ◌*◌, ◌%◌, ◌≡◌, Bool, true, false, Option, none, some, List, [], ◌∷◌, ltb,
  leb, if◌then◌else◌, length, is_empty, ◌>>=◌, ◌>>◌, assert, load,
}
use chater.RingBuffer.{RingBuffer, new_buffer, readable_bytes, peek, retrieve, append}
use chater.Packet.{Packet, header_length, header_bytes, header_of, u32_mod}

abbrev pub max_packet : ℕ
max_packet = 64 * 1024

-- One pass through the loop of `OnMessage`.
pub data Turn : Type 0 where
  waiting : Turn
  oversized : Turn
  delivered : Packet → RingBuffer → Turn

-- The body is copied only if the packet is longer than its header.
unfoldable pub read_body : ℕ → RingBuffer → Option (List ℕ)
read_body len buf =
    if ltb header_length len
    then load buf.buffer (buf.read_index + header_length) (len - header_length)
    else some []

unfoldable pub next_packet : RingBuffer → Option Turn
next_packet buf =
    if leb header_length (readable_bytes buf)
    then (do
      head ← peek buf header_length
      let len = (header_of head).length
      if ltb max_packet len
          then some oversized
          else (if leb len (readable_bytes buf)
              then (do
                body ← read_body len buf
                rest ← retrieve len buf
                some (delivered (record { header = header_of head; body = body }) rest))
              else some waiting))
    else some waiting

pub record Received : Type 0 where
  pub packets : List Packet
  pub force_closed : Bool
  pub left : RingBuffer

pub data Run : Type 0 where
  finished : Received → Run
  faulted : Run
  exhausted : Run

unfoldable pub deliver : Packet → Run → Run
deliver p (finished r) = finished (record r { packets = p ∷ r.packets })
deliver p faulted = faulted
deliver p exhausted = exhausted

-- `Codec::OnMessage`; the fuel bounds the passes through the loop.
unfoldable pub on_message : ℕ → RingBuffer → Run
unfolding deliver
on_message zero buf = exhausted
on_message (suc fuel) buf = elim (next_packet buf) [
  | none ↦ faulted
  | some waiting ↦ finished (record { packets = []; force_closed = false; left = buf })
  | some oversized ↦ finished (record { packets = []; force_closed = true; left = buf })
  | some (delivered p rest) ↦ deliver p (on_message fuel rest)
]

-- `Codec::SendPacket`: the buffer that it hands to `TcpConnection::Send`.
unfoldable pub send_packet : Packet → Option RingBuffer
send_packet p = do
  assert (leb header_length p.header.length)
  buf ← append (header_bytes p.header) (new_buffer 1024)
  if is_empty p.body then some buf else append p.body buf

-- `Codec::Encode`; the length is a 32-bit sum.
unfoldable pub encode : ℕ → ℕ → List ℕ → Packet
encode cmd seq bytes = record {
  header = record {
    length = (header_length + length bytes % u32_mod) % u32_mod;
    cmd = cmd;
    flag = 0;
    seq = seq;
  };
  body = bytes;
}
