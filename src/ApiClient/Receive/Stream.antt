-- ===== src/ApiClient/Receive/Stream.antt =====
-- Calls of `ApiClient::RecvPacket` (HPGateway/src/api_cli/ApiClient.cpp) on a stream of packets.
use chater.Common.{
  ℕ, zero, suc, ◌≡◌, refl, sym, ◌∙◌, Option, none, some, List, [], ◌∷◌, ◌++◌, length, ◌>>=◌,
  append_assoc, if◌then◌else◌, Bool, ◌==◌,
}
use chater.Common.Maps.{some-of_is_some, some_injective}
use chater.Packet.{Packet, packet_bytes}
use chater.Codec.Stream.{stream, AllFrames}
use chater.Packet.Answers.{answer_bytes, header_bytes-answer}
use chater.ApiClient.{ApiClient, Effect, Line, prints, writes, calls_back, send_heartbeat_rsp}
use chater.ApiClient.Report.{print_body}
use chater.ApiClient.Report.Reads.{print_body-Succeeds}
use chater.ApiClient.Receive.{Input, on_response, recv_packet}
use chater.ApiClient.Receive.Gather.{arriving}
use chater.ApiClient.Receive.Packets.{recv_packet-Handles}

-- Calls of `RecvPacket` as long as they succeed, `n` at most: the effects of each.
unfoldable pub recv_packets : ℕ → Option ℕ → ApiClient → List Input → Option (List (List Effect))
recv_packets zero taken c s = some []
recv_packets (suc n) taken c s = elim (recv_packet taken c s) [
  | none ↦ none
  | some r ↦ (do
    others ← recv_packets n taken c r.left
    some (if r.ok then r.effects ∷ others else []))
]

-- What one packet must lead to on a connected client: it is printed with the lines of its body, a
-- heartbeat request (0xF001) is answered with its number, and the callback gets its command, its number
-- and its body, if there is one.
pub record Responds (p : Packet) (fd : ℕ) (taken : Option ℕ) (callback : Bool) (es : List Effect)
    : Type 0 where
  pub lines : List Line
  pub of_body : print_body p.header.cmd p.body ≡ some lines
  pub effects :
      es
      ≡ prints p.header lines
        ∷ ((if p.header.cmd == 0xF001 then writes fd (answer_bytes p.header.seq) taken ∷ [] else [])
            ++ (if callback then calls_back p.header.cmd p.header.seq p.body ∷ [] else []))

unfoldable pub AllRespond : List Packet → ℕ → Option ℕ → Bool → List (List Effect) → Type 0
AllRespond [] fd taken callback [] = Unit {0}
AllRespond [] fd taken callback (es ∷ ess) = ⊥
AllRespond (p ∷ ps) fd taken callback [] = ⊥
AllRespond (p ∷ ps) fd taken callback (es ∷ ess) =
    Responds p fd taken callback es × AllRespond ps fd taken callback ess

on_response-Responds :
    (p : Packet) (fd : ℕ) (taken : Option ℕ) (c : ApiClient) (es : List Effect)
    → c.sockfd ≡ some fd
    → on_response p.header p.body taken c ≡ some es
    → Responds p fd taken c.has_callback es
unfolding on_response send_heartbeat_rsp
on_response-Responds p fd taken c es o run =
    let (lines, printed) = some-of_is_some _ (print_body-Succeeds p.header.cmd p.body) in
    record {
      lines = lines;
      of_body = printed;
      effects = some_injective es _ (sym run ∙ response_lem lines printed);
    }
  where
    response_lem :
        (lines : List Line)
        → print_body p.header.cmd p.body ≡ some lines
        → on_response p.header p.body taken c
          ≡ some (
              prints p.header lines
              ∷ ((if p.header.cmd == 0xF001
                    then writes fd (answer_bytes p.header.seq) taken ∷ []
                    else [])
                  ++ (if c.has_callback
                      then calls_back p.header.cmd p.header.seq p.body ∷ []
                      else [])))
    response_lem lines printed =
        rw (on_response, printed, send_heartbeat_rsp, o, header_bytes-answer) refl

-- A stream of packets within the limit that arrives at a connected client, in whatever segments, is
-- handled packet by packet in its order: each is printed with the lines of its body, each heartbeat
-- request is answered with the 12 bytes of an answer that carries its number, and the callback, if one is
-- set, is called with the packet's command, number and body.
pub recv_packets-stream :
    (ps : List Packet) (fd : ℕ) (taken : Option ℕ) (c : ApiClient) (s : List Input) (rest : List ℕ)
    → AllFrames ps
    → c.sockfd ≡ some fd
    → arriving s ≡ stream ps ++ rest
    → (ess : List (List Effect)) × (recv_packets (length ps) taken c s ≡ some ess)
      × AllRespond ps fd taken c.has_callback ess
unfolding recv_packets stream AllRespond
recv_packets-stream [] fd taken c s rest fs o e = ([], refl, tt)
recv_packets-stream (p ∷ ps) fd taken c s rest (f, fs) o e =
    let (effects, s', done, run, left) =
      recv_packet-Handles p fd taken c s (stream ps ++ rest) f o
        (e ∙ append_assoc (packet_bytes p) (stream ps) rest) in
    let (ess, more, all) = recv_packets-stream ps fd taken c s' rest fs o left in
    (
      effects ∷ ess,
      rw (recv_packets, run, more) refl,
      (on_response-Responds p fd taken c effects o done, all),
    )
