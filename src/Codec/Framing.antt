-- ===== src/Codec/Framing.antt =====
-- One pass of the loop of `Codec::OnMessage` (HPGateway/src/protocol/Codec.cpp), by what stands at
-- the front of the buffer.
use chater.Common.{
  ℕ, ◌+◌, ◌-◌, ◌≤◌, ◌<◌, ◌≡◌, sym, ap, ◌∙◌, some, List, [], ◌++◌, length, take, drop, arith,
  load_lem, length-append, take-append_le, take-append_length, append_assoc, take-take,
  drop-append_length, take-append-drop, append-nil, eq_nil_of_length,
}
use native.Mathlib.Decide.{dec_lt}
use chater.RingBuffer.{RingBuffer, readable_bytes, peek}
use chater.RingBuffer.Invariant.{IsValid, readable_lem}
use chater.RingBuffer.Contents.{contents, length-contents, drop-window}
use chater.RingBuffer.Operations.{peek-contents, retrieve-Leaves, retrieve_buffer}
use chater.Packet.{
  Packet, PacketHeader, InRange, header_bytes, header_of, packet_bytes, length-header_bytes,
  header_of-header_bytes,
}
use chater.Codec.{read_body, next_packet, waiting, oversized, delivered, max_packet}

-- A packet whose length field counts it, within the limit.
pub record IsFrame (p : Packet) : Type 0 where
  pub fields : InRange p.header
  pub counted : p.header.length ≡ 12 + length p.body
  pub bounded : p.header.length ≤ max_packet

pub length-packet_bytes : (p : Packet) → IsFrame p → length (packet_bytes p) ≡ p.header.length
unfolding packet_bytes
length-packet_bytes p f =
    omega (arith, length-append (header_bytes p.header) p.body, length-header_bytes p.header)

readable-length : (b : RingBuffer) → IsValid b → readable_bytes b ≡ length (contents b)
readable-length b v = readable_lem v ∙ sym (length-contents b v)

-- The header that the loop reads is the one at the front of the contents.
pub peek_header :
    (b : RingBuffer) (h : PacketHeader) (rest : List ℕ)
    → IsValid b
    → InRange h
    → contents b ≡ header_bytes h ++ rest
    → (peek b 12 ≡ some (header_bytes h)) × (12 ≤ readable_bytes b)
peek_header b h rest v r e = (
  peek-contents b 12 v fits
      ∙ ap some (
          ap (take 12) e
          ∙ take-append_length 12 (header_bytes h) rest (sym (length-header_bytes h))),
  fits,
)
  where
    fits : 12 ≤ readable_bytes b
    fits = omega (
      arith,
      readable-length b v,
      ap length e,
      length-append (header_bytes h) rest,
      length-header_bytes h,
    )

pub header_of_front : (h : PacketHeader) → InRange h → header_of (header_bytes h) ≡ h
header_of_front h r =
    ap header_of (sym (append-nil (header_bytes h))) ∙ header_of-header_bytes h [] r

-- The bytes behind the header are the body.
read_body_lem :
    (b : RingBuffer) (p : Packet) (rest : List ℕ)
    → IsValid b
    → IsFrame p
    → contents b ≡ packet_bytes p ++ rest
    → read_body p.header.length b ≡ some p.body
unfolding read_body packet_bytes
read_body_lem b p rest v f e = elim (dec_lt 12 p.header.length) [
  | yes long ↦ ground (
    arith,
    load_lem b.buffer (b.read_index + 12) (p.header.length - 12) (omega (arith, room)),
    take-take (p.header.length - 12) (b.write_index - b.read_index - 12)
        (drop (b.read_index + 12) b.buffer) (omega (arith, room)),
    drop-window b.buffer b.read_index (b.write_index - b.read_index) 12,
    behind,
  )
  | no short ↦ ground (arith, eq_nil_of_length p.body (omega (arith, f.counted)))
]
  where
    room : p.header.length ≤ b.write_index - b.read_index
    room = omega (
      arith,
      length-contents b v,
      ap length e,
      length-append (packet_bytes p) rest,
      length-packet_bytes p f,
    )

    behind : take (p.header.length - 12) (drop 12 (contents b)) ≡ p.body
    behind =
        ap (λ t. take (p.header.length - 12) (drop 12 t))
          (e ∙ append_assoc (header_bytes p.header) p.body rest)
        ∙ ap (take (p.header.length - 12)) (
            drop-append_length 12 (header_bytes p.header) (p.body ++ rest)
              (sym (length-header_bytes p.header)))
        ∙ take-append_length (p.header.length - 12) p.body rest (omega (arith, f.counted))

-- A whole packet at the front of a valid buffer is delivered and taken out.
pub next_packet-delivered :
    (b : RingBuffer) (p : Packet) (rest : List ℕ)
    → IsValid b
    → IsFrame p
    → contents b ≡ packet_bytes p ++ rest
    → (b' : RingBuffer) × (next_packet b ≡ some (delivered p b'))
      × IsValid b'
      × (contents b' ≡ rest)
      × (b'.buffer ≡ b.buffer)
unfolding next_packet packet_bytes
next_packet-delivered b p rest v f e =
    let (head, fits) =
      peek_header b p.header (p.body ++ rest) v f.fields
        (e ∙ append_assoc (header_bytes p.header) p.body rest) in
    let whole : p.header.length ≤ readable_bytes b = omega (
      arith,
      readable-length b v,
      ap length e,
      length-append (packet_bytes p) rest,
      length-packet_bytes p f,
    ) in
    let (b', out, v', left) = retrieve-Leaves b p.header.length v whole in
    (
      b',
      ground (arith, head, header_of_front p.header f.fields, read_body_lem b p rest v f e, out),
      v',
      left
          ∙ ap (drop p.header.length) e
          ∙ drop-append_length p.header.length (packet_bytes p) rest
              (sym (length-packet_bytes p f)),
      retrieve_buffer b p.header.length out,
    )

-- A proper part of a packet waits for the rest of it.
pub next_packet-waiting :
    (b : RingBuffer) (p : Packet) (more : List ℕ)
    → IsValid b
    → IsFrame p
    → contents b ++ more ≡ packet_bytes p
    → 0 < length more
    → next_packet b ≡ some waiting
unfolding next_packet packet_bytes
next_packet-waiting b p more v f e h = elim (dec_lt (readable_bytes b) 12) [
  | yes less ↦ ground arith
  | no part ↦
      let (head, _) =
        peek_header b p.header (drop 12 (contents b)) v f.fields (front (omega arith)) in
      ground (arith, head, header_of_front p.header f.fields, short)
]
  where
    short : readable_bytes b < p.header.length
    short = omega (
      arith,
      readable-length b v,
      ap length e,
      length-append (contents b) more,
      length-packet_bytes p f,
    )

    front : 12 ≤ readable_bytes b → contents b ≡ header_bytes p.header ++ drop 12 (contents b)
    front enough =
        sym (take-append-drop 12 (contents b))
        ∙ ap (λ t. t ++ drop 12 (contents b))
            (sym (take-append_le 12 (contents b) more (omega (arith, readable-length b v)))
              ∙ ap (take 12) e
              ∙ take-append_length 12 (header_bytes p.header) p.body
                  (sym (length-header_bytes p.header)))

-- When a header that announces more than 64 KiB stands at the front of a valid buffer, the pass
-- through the loop closes the connection.
pub next_packet-oversized :
    (b : RingBuffer) (h : PacketHeader) (rest : List ℕ)
    → IsValid b
    → InRange h
    → contents b ≡ header_bytes h ++ rest
    → max_packet < h.length
    → next_packet b ≡ some oversized
unfolding next_packet
next_packet-oversized b h rest v r e big =
    let (head, fits) = peek_header b h rest v r e in ground (arith, head, header_of_front h r)

-- With nothing to read the loop ends.
pub next_packet-empty :
    (b : RingBuffer) → IsValid b → contents b ≡ [] → next_packet b ≡ some waiting
unfolding next_packet
next_packet-empty b v e = ground (arith, readable-length b v)
