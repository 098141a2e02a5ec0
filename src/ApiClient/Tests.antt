-- ===== src/ApiClient/Tests.antt =====
-- A client on descriptor 7 that logs in, and a heartbeat that reaches it in two segments.
use chater.Common.{
  ℕ, ◌≡◌, refl, false, true, Option, none, some, List, [], ◌∷◌, ◌++◌, take, drop, arith, replicate,
  ◌+◌, ◌%◌,
}
use chater.Common.Maps.{is_some}
use chater.RingBuffer.{RingBuffer}
use chater.RingBuffer.Invariant.{IsValid}
use chater.RingBuffer.Contents.{contents}
use chater.Packet.{Packet, packet_bytes, header_bytes, u32_mod}
use chater.Codec.{encode}
use chater.Codec.Sending.{encode-IsFrame}
use chater.Codec.Feed.{Fed, feed}
use chater.Codec.Stream.{stream}
use chater.GatewayStruct.{order_info, size_of}
use chater.ApiClient.{
  ApiClient, Effect, new_client, Network, in_progress, logs_in, send_request, request_header,
}
use chater.ApiClient.Report.{print_body}
use chater.ApiClient.Report.Reads.{print_body-Succeeds}
use chater.ApiClient.Receive.{Input, segment, pause, give_up, recv_packet}
use chater.ApiClient.Receive.Gather.{arriving, beyond}
use chater.ApiClient.Receive.Packets.{recv_packet-cut, recv_packet-Succeeds}
use chater.ApiClient.Receive.Stream.{recv_packets, AllRespond, recv_packets-stream}
use chater.ApiClient.Descriptors.{
  ClientCall, connecting, disconnecting, requesting, receiving, run_client, run_client-Fits,
}
use chater.ApiClient.Replay.{replay}
use chater.ApiClient.Requests.{wire, run_requests, encoded, run_requests-feed, send_request_lem}

abbrev online : ApiClient
online = record { sockfd = some 7; seq = 1; recv_buf = []; has_callback = true }

abbrev heartbeat : Packet
heartbeat = encode 0xF001 5 (1 ∷ 2 ∷ [])

abbrev network : Network
network = record { resolves = true; socket = some 7; connecting = in_progress true true 0 }

abbrev sign_in : ℕ × List ℕ
sign_in = (0x0001, 65 ∷ 66 ∷ [])

abbrev two : List (ℕ × List ℕ)
two = sign_in ∷ (0x0003, 65 ∷ []) ∷ []

abbrev fresh : RingBuffer
fresh = record { buffer = 0 ∷ 0 ∷ []; read_index = 0; write_index = 0 }

fresh-IsValid : IsValid fresh
fresh-IsValid = record { ordered = omega arith; inside = omega arith; small = omega arith }

order_info_size : size_of order_info ≡ 224
unfolding size_of
order_info_size = refl

print_body-Succeeds_example : is_some (print_body 0x0102 (replicate 224 65)) ≡ true
print_body-Succeeds_example = print_body-Succeeds 0x0102 (replicate 224 65)

recv_packet-Succeeds_example :
    is_some (recv_packet (some 12) online (segment (1 ∷ 2 ∷ []) ∷ pause ∷ [])) ≡ true
recv_packet-Succeeds_example =
    recv_packet-Succeeds (some 12) online (segment (1 ∷ 2 ∷ []) ∷ pause ∷ [])

abbrev two_segments : List Input
two_segments =
    segment (take 5 (packet_bytes heartbeat)) ∷ segment (drop 5 (packet_bytes heartbeat)) ∷ []

recv_packets-stream_example :
    (ess : List (List Effect)) × (recv_packets 1 (some 12) online two_segments ≡ some ess)
    × AllRespond (heartbeat ∷ []) 7 (some 12) true ess
unfolding arriving stream packet_bytes encode header_bytes
recv_packets-stream_example =
    recv_packets-stream (heartbeat ∷ []) 7 (some 12) online two_segments []
      (encode-IsFrame 0xF001 5 (1 ∷ 2 ∷ []) (omega arith) (omega arith) (omega arith), tt) refl refl

recv_packet-cut_example :
    recv_packet
      (some 12)
      online
      (segment (take 13 (packet_bytes heartbeat)) ∷ pause ∷ segment (2 ∷ []) ∷ [])
    ≡ some (give_up (segment (2 ∷ []) ∷ []))
unfolding arriving beyond packet_bytes encode header_bytes
recv_packet-cut_example =
    recv_packet-cut heartbeat 7 13 (some 12) online
      (segment (take 13 (packet_bytes heartbeat)) ∷ pause ∷ segment (2 ∷ []) ∷ [])
      (encode-IsFrame 0xF001 5 (1 ∷ 2 ∷ []) (omega arith) (omega arith) (omega arith)) refl
      (omega arith) refl

abbrev session : List ClientCall
session =
    connecting network
    ∷ requesting (logs_in (65 ∷ [])) (some 13)
    ∷ receiving none (pause ∷ [])
    ∷ disconnecting
    ∷ []

run_client-Fits_example :
    (c' : ApiClient) × (es : List Effect) × (run_client session new_client ≡ some (c', es))
    × (replay es none ≡ some c'.sockfd)
unfolding new_client
run_client-Fits_example = run_client-Fits session new_client

send_request_lem_example :
    ((send_request 0x0001 (65 ∷ []) none online).0 ≡ 0)
    × (wire (send_request 0x0001 (65 ∷ []) none online).1.1 ≡ [])
    × ((send_request 0x0001 (65 ∷ []) (some 4) online).0 ≡ 1)
    × (wire (send_request 0x0001 (65 ∷ []) (some 4) online).1.1
        ≡ take 4 (packet_bytes (encode 0x0001 1 (65 ∷ []))))
    × ((taken : Option ℕ)
        → (send_request 0x0001 (65 ∷ []) taken online).1.0
          ≡ record online { seq = (1 + 1) % u32_mod })
send_request_lem_example = send_request_lem 0x0001 7 4 (65 ∷ []) online refl

run_requests-feed_example :
    (f : Fed) × (feed 3 [] (stream (encoded 1 two) ∷ []) fresh ≡ some f)
    × (f.force_closed ≡ false)
    × (later : List Packet) × (encoded 1 two ≡ f.packets ++ later)
    × (contents f.left ++ f.unread ≡ stream later)
unfolding wire run_requests encoded send_request request_header stream packet_bytes encode
    header_bytes
run_requests-feed_example =
    run_requests-feed 3 7 two online (stream (encoded 1 two) ∷ []) fresh refl (omega arith)
      ((omega arith, omega arith, (omega arith, omega arith, tt))) refl fresh-IsValid refl
      (omega arith) (omega arith)
