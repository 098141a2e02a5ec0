-- ===== src/Packet/Answers.antt =====
-- The answer to a heartbeat request as it stands on the wire, in the layout of HPGateway/src/protocol/Packet.h.
use chater.Common.{ℕ, ◌%◌, ◌/◌, ◌≡◌, refl, List, [], ◌∷◌}
use chater.Packet.{header_bytes}

-- 12 bytes: the length 12, the command 0xF002, no flag, and the request's sequence number, each with
-- its lowest byte first.
unfoldable pub answer_bytes : ℕ → List ℕ
answer_bytes seq =
    12
    ∷ 0
    ∷ 0
    ∷ 0
    ∷ 0x02
    ∷ 0xF0
    ∷ 0
    ∷ 0
    ∷ (seq % 256)
    ∷ (seq / 256 % 256)
    ∷ (seq / 65536 % 256)
    ∷ (seq / 16777216 % 256)
    ∷ []

pub header_bytes-answer :
    (seq : ℕ)
    → header_bytes (record { length = 12; cmd = 0xF002; flag = 0; seq = seq }) ≡ answer_bytes seq
unfolding header_bytes answer_bytes
header_bytes-answer seq = refl
