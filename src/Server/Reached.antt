-- ===== src/Server/Reached.antt =====
-- What holds in every state of the gateway that its steps reach.
use chater.Common.{ℕ, ◌≡◌, inl, inr, sym, ap, subst, Bool, Option, none, some, List, [], arith}
use chater.Common.Maps.{lookup, option-cases}
use chater.RingBuffer.{RingBuffer}
use chater.Codec
use chater.Codec.{finished, faulted, exhausted, Run}
use chater.Server.{Server, ConnObject, Effect, new_server, touch, handled, on_message}
use chater.Server.Steps.{Step, accepted, closed, lost, heard, ticked, Reachable, start, step}
use chater.Server.Consistent.{IsConsistent, nothing_left}
use chater.Server.Lost.{lost-IsConsistent}
use chater.Server.Preserved.{
  new_server-IsConsistent, accepted-IsConsistent, closing-IsConsistent, touch-IsConsistent,
  on_heartbeat-IsConsistent,
}

handled_lem :
    (ref : ℕ) (o : ConnObject) (left : RingBuffer) (s s' : Server) (run : Run)
    (effects : List Effect)
    → handled ref o s run ≡ some (s', left, effects)
    → s' ≡ s
unfolding handled
handled_lem ref o left s s' (finished r) effects h = ap (value s') (sym h)
  where
    value : Server → Option (Server × RingBuffer × List Effect) → Server
    value d none = d
    value d (some (v, _, _)) = v
handled_lem ref o left s s' faulted effects h = absurd (ground arith)
handled_lem ref o left s s' exhausted effects h = absurd (ground arith)

-- A message of an object only notes the time.
heard_lem :
    (fuel ref now : ℕ) (buf left : RingBuffer) (s s' : Server) (effects : List Effect)
    → on_message fuel ref now buf s ≡ some (s', left, effects)
    → (o : ConnObject) × (lookup ref s.objects ≡ some o) × (s' ≡ touch o.conn_id now s)
unfolding on_message
heard_lem fuel ref now buf left s s' effects h = elim (option-cases (lookup ref s.objects)) [
  | inl n ↦ absurd (ground arith)
  | inr (o, e) ↦ (
    o,
    e,
    handled_lem ref o left (touch o.conn_id now s) s' (Codec.on_message fuel buf) effects
        (ground (arith, e, h)),
  )
]

Step-IsConsistent : {s s' : Server} → IsConsistent s → Step s s' → IsConsistent s'
Step-IsConsistent {s} c (accepted ref now fresh room) = accepted-IsConsistent ref now s c fresh room
Step-IsConsistent {s} c (closed ref) = closing-IsConsistent ref s c
Step-IsConsistent {s} c (lost ref now) = lost-IsConsistent ref now s c
Step-IsConsistent {s} c (heard fuel ref now buf left s' effects h) =
    let (o, e, touched) = heard_lem fuel ref now buf left s s' effects h in
    subst IsConsistent (sym touched) (touch-IsConsistent ref now o s c e)
Step-IsConsistent {s} c (ticked now) = on_heartbeat-IsConsistent now s c

-- In every state that a gateway reaches from its start, by accepting, closing and losing connections,
-- by messages and by heartbeat ticks, while the counter of ids has not run out, the tables are
-- consistent: an id is mapped to an object exactly if the object exists and carries the id, every
-- entry of the heartbeat table belongs to a mapped id, and every session to an entry of that table.
pub Reachable-IsConsistent :
    (timeout : ℕ) (spi : Bool) (s : Server) → Reachable (new_server timeout spi) s → IsConsistent s
Reachable-IsConsistent timeout spi s start = new_server-IsConsistent timeout spi
Reachable-IsConsistent timeout spi s' (step {s} r e) =
    Step-IsConsistent (Reachable-IsConsistent timeout spi s r) e

-- In every reachable state, when no connection object is left then the tables of connections, of
-- heartbeats and of sessions are empty: nothing leaks.
pub Reachable-empty :
    (timeout : ℕ) (spi : Bool) (s : Server)
    → Reachable (new_server timeout spi) s
    → s.objects ≡ []
    → (s.connections.connections ≡ []) × (s.last_heartbeats ≡ []) × (s.sessions ≡ [])
Reachable-empty timeout spi s r = nothing_left s (Reachable-IsConsistent timeout spi s r)
