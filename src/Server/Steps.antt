-- ===== src/Server/Steps.antt =====
-- The steps of the gateway over connection objects that appear and end.
use chater.Common.{ℕ, ◌+◌, ◌<◌, ◌^◌, ◌≡◌, true, false, none, some, List}
use chater.Common.Maps.{Map, lookup, insert, erase, member}
use chater.RingBuffer.{RingBuffer}
use chater.Server.{Server, ConnObject, Effect, on_connection, on_message, on_heartbeat}

-- A new connection object before its callback: connected, with the id 0.
unfoldable pub appears : ℕ → Server → Server
appears ref s = record s { objects = insert ref (record { is_up = true; conn_id = 0 }) s.objects }

unfoldable pub close_object : ℕ → Map ConnObject → Map ConnObject
close_object ref m = elim (lookup ref m) [
  | none ↦ m
  | some o ↦ insert ref (record o { is_up = false }) m
]

-- `Connected()` answers false from the first request to close on.
unfoldable pub closing : ℕ → Server → Server
closing ref s = record s { objects = close_object ref s.objects }

unfoldable pub ends : ℕ → Server → Server
ends ref s = record s { objects = erase ref s.objects }

-- One step of the gateway with its network layer. An object that is not known appears and is
-- reported; a known one may start to close, deliver bytes, or be reported down. That it then ends, which the
-- source leaves to a functor that runs later, is part of the same step.
pub data Step (s : Server) : Server → Type 0 where
  accepted :
      (ref now : ℕ)
      → member ref s.objects ≡ false
      → s.connections.next_conn_id + 1 < 2 ^ 63
      → Step s (on_connection ref now (appears ref s))
  closed : (ref : ℕ) → Step s (closing ref s)
  lost : (ref now : ℕ) → Step s (ends ref (on_connection ref now (closing ref s)))
  heard :
      (fuel ref now : ℕ) (buf left : RingBuffer) (s' : Server) (effects : List Effect)
      → on_message fuel ref now buf s ≡ some (s', left, effects)
      → Step s s'
  ticked : (now : ℕ) → Step s (on_heartbeat now s).0

pub data Reachable (s₀ : Server) : Server → Type 0 where
  start : Reachable s₀ s₀
  step : {s s' : Server} → Reachable s₀ s → Step s s' → Reachable s₀ s'
