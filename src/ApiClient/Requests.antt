-- ===== src/ApiClient/Requests.antt =====
-- What the requests of HPGateway/src/api_cli/ApiClient.cpp put on the wire, against
-- HPGateway/src/protocol/Codec.cpp on the other side.
use chater.Common.{
  ℕ, ◌+◌, ◌%◌, ◌≤◌, ◌<◌, ◌≡◌, refl, sym, ap, ◌∙◌, false, Option, none, some, List, [], ◌∷◌, ◌++◌,
  length, take, arith, append-nil, append_assoc, length-append, take-all,
}
use chater.RingBuffer.{RingBuffer}
use chater.RingBuffer.Invariant.{IsValid}
use chater.RingBuffer.Contents.{contents}
use chater.Packet.{Packet, packet_bytes, header_bytes, length-header_bytes, u16_mod, u32_mod}
use chater.Codec.{encode, max_packet}
use chater.Codec.Sending.{encode-IsFrame}
use chater.Codec.Stream.{stream, AllFrames}
use chater.Codec.Feed.{Fed, feed, feed-stream, join, input_limit}
use chater.ApiClient.{
  ApiClient, Effect, opens, closes, writes, prints, calls_back, request_header, send_request,
}

-- The bytes that the kernel takes.
unfoldable pub wire : List Effect → List ℕ
wire [] = []
wire (opens fd ∷ es) = wire es
wire (closes fd ∷ es) = wire es
wire (writes fd bytes none ∷ es) = wire es
wire (writes fd bytes (some n) ∷ es) = take n bytes ++ wire es
wire (prints header lines ∷ es) = wire es
wire (calls_back cmd seq body ∷ es) = wire es

-- `SendRequest` on a connected client, on both answers of `writev`: it takes the next number; on an
-- error it returns 0 and nothing is sent; else it returns the number, also when the kernel takes only a
-- part: what is sent is then the front of the encoded packet.
pub send_request_lem :
    (cmd fd n : ℕ) (bytes : List ℕ) (c : ApiClient)
    → c.sockfd ≡ some fd
    → ((send_request cmd bytes none c).0 ≡ 0)
      × (wire (send_request cmd bytes none c).1.1 ≡ [])
      × ((send_request cmd bytes (some n) c).0 ≡ c.seq)
      × (wire (send_request cmd bytes (some n) c).1.1
          ≡ take n (packet_bytes (encode cmd c.seq bytes)))
      × ((taken : Option ℕ)
          → (send_request cmd bytes taken c).1.0 ≡ record c { seq = (c.seq + 1) % u32_mod })
unfolding send_request wire packet_bytes encode request_header
send_request_lem cmd fd n bytes c on = (
  simp (send_request, on) refl,
  simp (send_request, on) refl,
  simp (send_request, on) refl,
  simp (send_request, wire, on) (append-nil (take n (packet_bytes (encode cmd c.seq bytes)))),
  λ taken. simp (send_request, on) refl,
)

wire-append : (es fs : List Effect) → wire (es ++ fs) ≡ wire es ++ wire fs
unfolding wire
wire-append [] fs = refl
wire-append (opens fd ∷ es) fs = wire-append es fs
wire-append (closes fd ∷ es) fs = wire-append es fs
wire-append (writes fd bytes none ∷ es) fs = wire-append es fs
wire-append (writes fd bytes (some n) ∷ es) fs =
    ap (λ t. take n bytes ++ t) (wire-append es fs)
    ∙ sym (append_assoc (take n bytes) (wire es) (wire fs))
wire-append (prints header lines ∷ es) fs = wire-append es fs
wire-append (calls_back cmd seq body ∷ es) fs = wire-append es fs

-- Requests with a command and a body each, every one taken whole by `writev`.
unfoldable pub run_requests : List (ℕ × List ℕ) → ApiClient → List Effect
run_requests [] c = []
run_requests ((cmd, bytes) ∷ rs) c =
    let (seq, (c1, es)) = send_request cmd bytes (some (12 + length bytes)) c in
    es ++ run_requests rs c1

-- The packets that `Codec::Encode` makes of them, numbered from `seq` on.
unfoldable pub encoded : ℕ → List (ℕ × List ℕ) → List Packet
encoded seq [] = []
encoded seq ((cmd, bytes) ∷ rs) = encode cmd seq bytes ∷ encoded ((seq + 1) % u32_mod) rs

abbrev pub AllRequests : List (ℕ × List ℕ) → Type 0
AllRequests [] = Unit {0}
AllRequests ((cmd, bytes) ∷ rs) =
    (cmd < u16_mod) × (12 + length bytes ≤ max_packet) × AllRequests rs

encoded-AllFrames :
    (seq : ℕ) (rs : List (ℕ × List ℕ)) → seq < u32_mod → AllRequests rs → AllFrames (encoded seq rs)
unfolding encoded
encoded-AllFrames seq [] h rs = tt
encoded-AllFrames seq ((cmd, bytes) ∷ rs) h (k, l, all) = (
  encode-IsFrame cmd seq bytes k h l,
  encoded-AllFrames ((seq + 1) % u32_mod) rs (omega arith) all,
)

length-encoded : (seq : ℕ) (rs : List (ℕ × List ℕ)) → length (encoded seq rs) ≡ length rs
unfolding encoded
length-encoded seq [] = refl
length-encoded seq ((cmd, bytes) ∷ rs) = omega (arith, length-encoded ((seq + 1) % u32_mod) rs)

length-encode :
    (cmd seq : ℕ) (bytes : List ℕ)
    → length (packet_bytes (encode cmd seq bytes)) ≡ 12 + length bytes
unfolding packet_bytes encode
length-encode cmd seq bytes = omega (
  arith,
  length-append (header_bytes (encode cmd seq bytes).header) bytes,
  length-header_bytes (encode cmd seq bytes).header,
)

run_requests-wire :
    (rs : List (ℕ × List ℕ)) (fd : ℕ) (c : ApiClient)
    → c.sockfd ≡ some fd
    → wire (run_requests rs c) ≡ stream (encoded c.seq rs)
unfolding run_requests encoded stream wire
run_requests-wire [] fd c on = refl
run_requests-wire ((cmd, bytes) ∷ rs) fd c on =
    let m = 12 + length bytes in
    let bs = packet_bytes (encode cmd c.seq bytes) in
    let (failed, silent, number, sent, next) = send_request_lem cmd fd m bytes c on in
    let c1 = (send_request cmd bytes (some m) c).1.0 in
    let others = run_requests-wire rs fd c1 (ap (λ x. x.sockfd) (next (some m)) ∙ on) in
    wire-append (send_request cmd bytes (some m) c).1.1 (run_requests rs c1)
    ∙ ap (λ t. t ++ wire (run_requests rs c1))
        (sent ∙ take-all m bs (omega (arith, length-encode cmd c.seq bytes)))
    ∙ ap (λ t. bs ++ t) (others ∙ ap (λ q. stream (encoded q rs)) (ap (λ x. x.seq) (next (some m))))

-- The requests of a connected client that `writev` takes whole arrive at the gateway: however the
-- network and `readv` cut what they put on the wire, the codec closes nothing and hands on the encoded
-- requests in their order, with numbers that rise by one, modulo 2^32, from the client's; what it has
-- not handed on is a rest of the last ones. Each command has 16 bits and each body fits a packet; the
-- gateway's buffer is valid and empty, and the fuel exceeds the number of requests.
pub run_requests-feed :
    (fuel fd : ℕ) (rs : List (ℕ × List ℕ)) (c : ApiClient) (arrivals : List (List ℕ))
    (b : RingBuffer)
    → c.sockfd ≡ some fd
    → c.seq < u32_mod
    → AllRequests rs
    → join arrivals ≡ wire (run_requests rs c)
    → IsValid b
    → contents b ≡ []
    → length b.buffer ≤ input_limit
    → length rs < fuel
    → (f : Fed) × (feed fuel [] arrivals b ≡ some f)
      × (f.force_closed ≡ false)
      × (later : List Packet) × (encoded c.seq rs ≡ f.packets ++ later)
      × (contents f.left ++ f.unread ≡ stream later)
run_requests-feed fuel fd rs c arrivals b on h all e v none_in l k =
    let (f, done, open_, later, split, kept, cut, limit) =
      feed-stream fuel (encoded c.seq rs) arrivals b v none_in l (encoded-AllFrames c.seq rs h all)
        (e ∙ run_requests-wire rs fd c on) (omega (arith, length-encoded c.seq rs)) in
    (f, done, open_, later, split, kept)
