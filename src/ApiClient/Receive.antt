-- ===== src/ApiClient/Receive.antt =====
-- `RecvAll` and `RecvPacket` of HPGateway/src/api_cli/ApiClient.cpp. What the socket holds is a list
-- of segments and of the moments at which `recv` has nothing, the peer has closed, or an error waits.
pub mod Gather
pub mod Packets
pub mod Stream
use chater.Common.{
  ℕ, zero, suc, ◌+◌, ◌-◌, Bool, true, false, ◌||◌, Option, none, some, List, [], ◌∷◌, ◌++◌, ltb,
  ◌==◌, if◌then◌else◌, length, take, drop, ◌>>=◌,
}
use chater.Packet.{PacketHeader, header_length, header_of}
use chater.Packet.Commands.{cmd_heartbeat_req}
use chater.Codec.{max_packet}
use chater.ApiClient.{ApiClient, Effect, prints, calls_back, send_heartbeat_rsp}
use chater.ApiClient.Report.{print_body}

pub data Input : Type 0 where
  segment : List ℕ → Input
  pause : Input
  hang_up : Input
  broken : Input

-- What one `recv` answers: at least one byte, 0, or an error.
pub data Recv : Type 0 where
  got : List ℕ → Recv
  closed : Recv
  failed : Recv

unfoldable pub recv : ℕ → List Input → Recv × List Input
recv n [] = (failed, [])
recv n (segment [] ∷ s) = recv n s
recv n (segment (x ∷ xs) ∷ s) = (got (take n (x ∷ xs)), segment (drop n (x ∷ xs)) ∷ s)
recv n (pause ∷ s) = (failed, s)
recv n (hang_up ∷ s) = (closed, hang_up ∷ s)
recv n (broken ∷ s) = (failed, s)

pub record Gathered : Type 0 where
  pub complete : Bool
  pub bytes : List ℕ
  pub left : List Input

unfoldable pub behind : List ℕ → Gathered → Gathered
behind xs g = record g { bytes = xs ++ g.bytes }

-- `RecvAll`: the bytes in the buffer, also when it stops early. The fuel bounds the calls of `recv`.
unfoldable pub recv_all : ℕ → ℕ → List Input → Option Gathered
unfolding recv behind
recv_all fuel zero s = some (record { complete = true; bytes = []; left = s })
recv_all zero (suc n) s = none
recv_all (suc fuel) (suc n) s =
    let (answer, s') = recv (suc n) s in
    elim answer [
      | got xs ↦ (do g ← recv_all fuel (suc n - length xs) s'; some (behind xs g))
      | closed ↦ some (record { complete = false; bytes = []; left = s' })
      | failed ↦ some (record { complete = false; bytes = []; left = s' })
    ]

pub record Reply : Type 0 where
  pub ok : Bool
  pub effects : List Effect
  pub left : List Input

abbrev pub give_up : List Input → Reply
give_up s = record { ok = false; effects = []; left = s }

-- What follows a packet that is read: the printing, the answer to a heartbeat, and the callback.
unfoldable pub on_response : PacketHeader → List ℕ → Option ℕ → ApiClient → Option (List Effect)
on_response header body taken c = do
  lines ← print_body header.cmd body
  some (
      prints header lines
      ∷ ((if header.cmd == cmd_heartbeat_req then send_heartbeat_rsp header.seq taken c else [])
          ++ (if c.has_callback then calls_back header.cmd header.seq body ∷ [] else [])))

-- `RecvPacket` behind the header: its length is checked and the body is read.
unfoldable pub recv_body : PacketHeader → Option ℕ → ApiClient → List Input → Option Reply
unfolding recv_all on_response
recv_body header taken c s =
    if ltb header.length header_length || ltb max_packet header.length
    then some (give_up s)
    else (do
      body ← recv_all (header.length - header_length) (header.length - header_length) s
      if body.complete
          then (do
            effects ← on_response header body.bytes taken c
            some (record { ok = true; effects = effects; left = body.left }))
          else some (give_up body.left))

-- `RecvPacket`: its answer, the effects and what the socket still holds; `taken` is what the kernel
-- takes of an answer to a heartbeat. The fuel of each `RecvAll` is the number of bytes it waits for.
unfoldable pub recv_packet : Option ℕ → ApiClient → List Input → Option Reply
unfolding recv_all recv_body
recv_packet taken c s = elim c.sockfd [
  | none ↦ some (give_up s)
  | some fd ↦ (do
    head ← recv_all header_length header_length s
    if head.complete
        then recv_body (header_of head.bytes) taken c head.left
        else some (give_up head.left))
]
