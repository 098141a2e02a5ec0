-- ===== src/Codec/Sending.antt =====
-- `Codec::Encode` and `Codec::SendPacket` against the bytes of a packet.
use chater.Common.{
  ℕ, ◌+◌, ◌≤◌, ◌<◌, refl, sym, ap, ◌∙◌, some, List, [], ◌∷◌, ◌++◌, length, arith, is_empty,
  if◌then◌else◌, le→leb, max_size, append-nil, length-replicate,
}
use chater.RingBuffer.{RingBuffer, new_buffer, append}
use chater.RingBuffer.Invariant.{IsValid, new_buffer-IsValid}
use chater.RingBuffer.Contents.{contents}
use chater.RingBuffer.Operations.{Leaves}
use chater.RingBuffer.Append.{append-LeavesWithin, append-Leaves}
use chater.Packet.{Packet, header_bytes, packet_bytes, length-header_bytes, u16_mod, u32_mod}
use chater.Codec.{send_packet, encode, max_packet}
use chater.Codec.Framing.{IsFrame}

send_body :
    (b : RingBuffer) (body : List ℕ)
    → IsValid b
    → b.write_index + length body ≤ max_size
    → Leaves (contents b ++ body) (if is_empty body then some b else append body b)
send_body b [] v h = (b, refl, v, sym (append-nil (contents b)))
send_body b (x ∷ xs) v h = append-Leaves b (x ∷ xs) v h

-- `SendPacket` of a packet whose length field covers the header and whose body has at most 64 KiB hands
-- `Send` a valid buffer whose readable bytes are the packet's header and body.
pub send_packet-Leaves :
    (p : Packet)
    → 12 ≤ p.header.length
    → length p.body ≤ max_packet
    → Leaves (packet_bytes p) (send_packet p)
unfolding send_packet packet_bytes new_buffer
send_packet-Leaves p h k =
    let (b, done, v, same, size) =
      append-LeavesWithin (new_buffer 1024) (header_bytes p.header)
        (new_buffer-IsValid 1024 (omega arith)) (omega (arith, length-header_bytes p.header)) in
    let (b', done', v', same') =
      send_body b p.body v
        (omega (arith, size, length-replicate {0} {A = ℕ} 1024 0, length-header_bytes p.header)) in
    (b', rw (le→leb 12 p.header.length h, done, done'), v', same' ∙ ap (λ t. t ++ p.body) same)

-- `Encode` of a 16-bit command, a 32-bit sequence number and a body that with its header stays within
-- 64 KiB makes a packet that the reader's loop accepts: its fields are in range, its length counts it
-- and is within the limit.
pub encode-IsFrame :
    (cmd seq : ℕ) (bytes : List ℕ)
    → cmd < u16_mod
    → seq < u32_mod
    → 12 + length bytes ≤ max_packet
    → IsFrame (encode cmd seq bytes)
unfolding encode
encode-IsFrame cmd seq bytes hc hs hb = omega arith
