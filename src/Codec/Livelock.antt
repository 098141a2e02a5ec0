-- ===== src/Codec/Livelock.antt =====
-- `Codec::OnMessage` on a header whose length field is 0, which passes the loop's only test on it,
-- `len > 64 * 1024`.
use chater.Common.{ℕ, zero, suc, ◌≡◌, refl, some, List, [], ◌++◌, ◌<◌, arith}
use chater.RingBuffer.{RingBuffer, readable_bytes, retrieve}
use chater.RingBuffer.Invariant.{IsValid}
use chater.RingBuffer.Contents.{contents}
use chater.Packet.{PacketHeader, InRange, header_bytes}
use chater.Codec.{read_body, next_packet, delivered, exhausted, on_message}
use chater.Codec.Framing.{peek_header, header_of_front}

-- Retrieving nothing from a buffer that is not empty changes nothing.
retrieve_zero : (b : RingBuffer) → IsValid b → 0 < readable_bytes b → retrieve 0 b ≡ some b
unfolding retrieve
retrieve_zero b v h = ground arith

empty_turn :
    (b : RingBuffer) (h : PacketHeader) (rest : List ℕ)
    → IsValid b
    → InRange h
    → contents b ≡ header_bytes h ++ rest
    → h.length ≡ 0
    → next_packet b ≡ some (delivered (record { header = h; body = [] }) b)
unfolding next_packet read_body
empty_turn b h rest v r e z =
    let (head, fits) = peek_header b h rest v r e in
    ground (arith, head, header_of_front h r, retrieve_zero b v (omega arith))

-- Whenever a header whose length field is 0 stands at the front of a valid input buffer, the loop
-- never ends: no number of passes is enough.
pub zero_length_livelock :
    (fuel : ℕ) (b : RingBuffer) (h : PacketHeader) (rest : List ℕ)
    → IsValid b
    → InRange h
    → contents b ≡ header_bytes h ++ rest
    → h.length ≡ 0
    → on_message fuel b ≡ exhausted
unfolding on_message
zero_length_livelock zero b h rest v r e z = refl
zero_length_livelock (suc fuel) b h rest v r e z =
    rw (empty_turn b h rest v r e z, on_message, zero_length_livelock fuel b h rest v r e z)
