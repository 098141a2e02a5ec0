-- ===== src/Connections/Tests.antt =====
-- Runs of the connection manager, and its theorems at small states.
use chater.Common.{ℕ, ◌≡◌, refl, Bool, true, false, [], ◌∷◌, ◌==◌, arith}
use chater.Common.Maps.{lookup}
use chater.Connections.{ConnectionManager, send_to_client, broadcast}
use chater.Connections.Ids.{IsValid}

-- The connections 70 and 71, of which 71 is gone.
abbrev two : ConnectionManager
two = record { connections = (1, 70) ∷ (3, 71) ∷ []; next_conn_id = 4 }

abbrev alive : ℕ → Bool
alive conn = conn == 70

broadcast-two : broadcast alive (9 ∷ []) two ≡ (true, record { conn = 70; bytes = 9 ∷ [] } ∷ [])
unfolding broadcast
broadcast-two = refl

send_gone : send_to_client alive 3 (9 ∷ []) two ≡ (false, [])
unfolding send_to_client lookup
send_gone = refl

two-IsValid : IsValid two
two-IsValid = omega arith
