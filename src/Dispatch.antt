-- ===== src/Dispatch.antt =====
-- HPGateway/src/protocol/PacketDispatcher.h and PacketDispatcher.cpp, and the same table under
-- another name in HPGateway/src/business/MessageRouter.h and MessageRouter.cpp. A handler is a
-- `std::function`: it may change any state `S`. An unknown command is logged only.
pub mod Tables
mod Tests
use chater.Common.{ℕ, Option, none, some}
use chater.Common.Maps.{Map, lookup, insert}
use chater.Packet.{Packet}

abbrev pub Handler : Type 0 → Type 0
Handler S = Packet → ℕ → S → S

module _ {S : Type 0} where
  unfoldable pub register_handler : ℕ → Handler S → Map (Handler S) → Map (Handler S)
  register_handler cmd handler handlers = insert cmd handler handlers

  unfoldable pub dispatch : Map (Handler S) → Packet → ℕ → S → S
  dispatch handlers packet conn_id s = elim (lookup packet.header.cmd handlers) [
    | some handler ↦ handler packet conn_id s
    | none ↦ s
  ]

  unfoldable pub register_route : ℕ → Handler S → Map (Handler S) → Map (Handler S)
  register_route cmd handler routes = insert cmd handler routes

  unfoldable pub route : Map (Handler S) → Packet → ℕ → S → S
  route routes packet conn_id s = elim (lookup packet.header.cmd routes) [
    | some handler ↦ handler packet conn_id s
    | none ↦ s
  ]
