-- ===== src/Dispatch/Tests.antt =====
-- A run of the table of handlers, and its theorem at a small table.
use chater.Common.{ℕ, ◌+◌, ◌≡◌, refl, List, [], ◌∷◌}
use chater.Common.Maps.{lookup, insert}
use chater.Packet.{Packet}
use chater.Dispatch.{Handler, register_handler, dispatch}
use chater.Dispatch.Tables.{registered}

abbrev adds : ℕ → Handler ℕ
adds n packet conn_id s = s + n + conn_id

abbrev table : List (ℕ × Handler ℕ)
table = (7, adds 100) ∷ (8, adds 200) ∷ (7, adds 300) ∷ []

abbrev request : Packet
request = record { header = record { length = 12; cmd = 7; flag = 0; seq = 0 }; body = [] }

dispatch_latest : dispatch (registered table) request 3 0 ≡ 103
unfolding dispatch registered register_handler lookup insert
dispatch_latest = refl
