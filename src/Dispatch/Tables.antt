-- ===== src/Dispatch/Tables.antt =====
-- What a table of handlers does after any sequence of registrations.
use chater.Common.{ℕ, ◌≡◌, refl, List, [], ◌∷◌, if◌then◌else◌, ◌==◌, Bool-cases, inl, inr}
use chater.Common.Maps.{Map, lookup, lookup-insert}
use chater.Packet.{Packet}
use chater.Dispatch.{Handler, register_handler, dispatch}

module _ {S : Type 0} where
  -- The registrations, the latest first.
  unfoldable pub registered : List (ℕ × Handler S) → Map (Handler S)
  registered [] = []
  registered ((cmd, handler) ∷ rs) = register_handler cmd handler (registered rs)

  -- The latest registration for the packet's command runs; with none the state stays.
  unfoldable pub latest : List (ℕ × Handler S) → Packet → ℕ → S → S
  latest [] packet conn_id s = s
  latest ((cmd, handler) ∷ rs) packet conn_id s =
      if cmd == packet.header.cmd then handler packet conn_id s else latest rs packet conn_id s

  -- After any registrations a packet runs the handler registered last for its command, and no
  -- other; with no such handler the state stays.
  pub dispatch-registered :
      (rs : List (ℕ × Handler S)) (packet : Packet) (conn_id : ℕ) (s : S)
      → dispatch (registered rs) packet conn_id s ≡ latest rs packet conn_id s
  unfolding dispatch registered latest register_handler
  dispatch-registered [] packet conn_id s = unfold lookup in refl
  dispatch-registered ((cmd, handler) ∷ rs) packet conn_id s =
      elim (Bool-cases (cmd == packet.header.cmd)) [
        | inl hit ↦ rw (lookup-insert cmd packet.header.cmd handler (registered rs), hit, dispatch)
        | inr miss ↦
            rw (lookup-insert cmd packet.header.cmd handler (registered rs), miss, dispatch)
              (dispatch-registered rs packet conn_id s)
      ]
