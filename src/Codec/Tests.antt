-- ===== src/Codec/Tests.antt =====
-- Runs of the codec on small inputs, and its theorems at such inputs.
use chater.Common.{ℕ, ◌≤◌, ◌≡◌, refl, false, some, List, [], ◌∷◌, ◌++◌, length, arith, load}
use chater.RingBuffer.{RingBuffer, readable_bytes, retrieve, peek}
use chater.RingBuffer.Invariant.{IsValid}
use chater.RingBuffer.Contents.{contents}
use chater.RingBuffer.Operations.{Leaves}
use chater.Packet.{Packet, PacketHeader, header_bytes, header_of, packet_bytes}
use chater.Codec.{read_body, next_packet, delivered, finished, exhausted, on_message, send_packet}
use chater.Codec.Stream.{stream, AllFrames, IsPartial, Cuts, on_message-Cuts}
use chater.Codec.Feed.{feed, Fed, feed-stream, input_limit}
use chater.Codec.Sending.{send_packet-Leaves}
use chater.Codec.Livelock.{zero_length_livelock}

-- A heartbeat request, and an order with a body of two bytes.
abbrev heartbeat : Packet
heartbeat = record { header = record { length = 12; cmd = 0xF001; flag = 0; seq = 5 }; body = [] }

abbrev order : Packet
order = record {
  header = record { length = 14; cmd = 0x0101; flag = 0; seq = 6 };
  body = 42 ∷ 43 ∷ [];
}

abbrev both : List Packet
both = heartbeat ∷ order ∷ []

-- The bytes of both packets in three pieces.
abbrev pieces : List (List ℕ)
pieces =
    (12 ∷ 0 ∷ 0 ∷ 0 ∷ 1 ∷ [])
    ∷ (0xF0 ∷ 0 ∷ 0 ∷ 5 ∷ 0 ∷ 0 ∷ 0 ∷ 14 ∷ 0 ∷ 0 ∷ 0 ∷ 1 ∷ 1 ∷ [])
    ∷ (0 ∷ 0 ∷ 6 ∷ 0 ∷ 0 ∷ 0 ∷ 42 ∷ 43 ∷ [])
    ∷ []

abbrev fresh : RingBuffer
fresh = record { buffer = 0 ∷ 0 ∷ []; read_index = 0; write_index = 0 }

-- A header that announces no bytes at all.
abbrev zeroed_header : PacketHeader
zeroed_header = record { length = 0; cmd = 0; flag = 0; seq = 0 }

abbrev zeroed : RingBuffer
zeroed = record {
  buffer = 0 ∷ 0 ∷ 0 ∷ 0 ∷ 0 ∷ 0 ∷ 0 ∷ 0 ∷ 0 ∷ 0 ∷ 0 ∷ 0 ∷ [];
  read_index = 0;
  write_index = 12;
}

both-AllFrames : AllFrames both
both-AllFrames = omega arith

wire : packet_bytes order ≡ 14 ∷ 0 ∷ 0 ∷ 0 ∷ 1 ∷ 1 ∷ 0 ∷ 0 ∷ 6 ∷ 0 ∷ 0 ∷ 0 ∷ 42 ∷ 43 ∷ []
unfolding packet_bytes header_bytes
wire = refl

abbrev full : RingBuffer
full = record {
  buffer = 14 ∷ 0 ∷ 0 ∷ 0 ∷ 1 ∷ 1 ∷ 0 ∷ 0 ∷ 6 ∷ 0 ∷ 0 ∷ 0 ∷ 42 ∷ 43 ∷ 12 ∷ [];
  read_index = 0;
  write_index = 15;
}

full-IsValid : IsValid full
full-IsValid = omega arith

full_turn : next_packet full ≡ some (delivered order (record full { read_index = 14 }))
unfolding next_packet read_body readable_bytes peek load header_of retrieve
full_turn = refl

full_run :
    on_message 3 full
    ≡ finished (record {
      packets = order ∷ [];
      force_closed = false;
      left = record full { read_index = 14 };
    })
unfolding on_message next_packet read_body readable_bytes peek load header_of retrieve
full_run = refl

on_message-Cuts_example :
    Cuts full
      (0 ∷ 0 ∷ 0 ∷ 1 ∷ 0xF0 ∷ 0 ∷ 0 ∷ 5 ∷ 0 ∷ 0 ∷ 0 ∷ [])
      (order ∷ heartbeat ∷ [])
      (on_message 3 full)
unfolding stream packet_bytes header_bytes
on_message-Cuts_example =
    on_message-Cuts (order ∷ heartbeat ∷ []) full _ 3 full-IsValid (omega arith) refl (omega arith)

fresh-IsValid : IsValid fresh
fresh-IsValid = omega arith

feed-stream_example :
    (f : Fed) × (feed 3 [] pieces fresh ≡ some f)
    × (f.force_closed ≡ false)
    × (rs : List Packet) × (both ≡ f.packets ++ rs)
    × (contents f.left ++ f.unread ≡ stream rs)
    × IsPartial (contents f.left) rs
    × (length f.left.buffer ≤ input_limit)
unfolding stream packet_bytes header_bytes
feed-stream_example =
    feed-stream 3 both pieces fresh fresh-IsValid refl (omega arith) both-AllFrames refl
      (omega arith)

send_packet-Leaves_example : Leaves (packet_bytes order) (send_packet order)
send_packet-Leaves_example = send_packet-Leaves order (omega arith) (omega arith)

zero_length_livelock_example : on_message 1000 zeroed ≡ exhausted
unfolding header_bytes
zero_length_livelock_example =
    zero_length_livelock 1000 zeroed zeroed_header [] (omega arith) (omega arith) refl refl
