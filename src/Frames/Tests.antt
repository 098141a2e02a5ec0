-- ===== src/Frames/Tests.antt =====
-- A way between two sockets that keeps its frames in a list, and a request with its reply over two of them.
use chater.Common.{
  ℕ, ◌≡◌, refl, sym, ap, Bool, true, false, Option, none, some, List, [], ◌∷◌, ◌++◌, arith,
}
use chater.Packet.{u16_bytes}
use chater.Frames.{Zmq, send_message, recv_message, send_router_message, recv_router_message}
use chater.Frames.Trips.{
  flagged, IsRoute, from_peer, to_peer, is_same, recv_message-send_router_message,
}

record Way : Type 0 where
  held : List (List ℕ)
  queue : List (List ℕ × Bool)

abbrev push : (List (List ℕ) → List (List ℕ)) → List ℕ → Bool → Way → Way
push change frame true w = record w { held = w.held ++ frame ∷ [] }
push change frame false w = record {
  held = [];
  queue = w.queue ++ flagged (change (w.held ++ frame ∷ []));
}

abbrev take_frame : List (List ℕ) → List (List ℕ × Bool) → Option (List ℕ × Bool × Way)
take_frame held [] = none
take_frame held ((frame, more) ∷ rest) = some (frame, more, record { held = held; queue = rest })

abbrev way : (List (List ℕ) → List (List ℕ)) → Zmq Way
way change = record {
  send = λ frame more w. some (push change frame more w);
  recv = λ w. take_frame w.held w.queue;
}

abbrev value : Way → Option Way → Way
value d none = d
value d (some w) = w

abbrev way-IsRoute : (change : List (List ℕ) → List (List ℕ)) → IsRoute (way change) change
way-IsRoute change = record {
  held_back = λ w. w.held;
  arrived = λ w. w.queue;
  sent_more =
      λ frame s s' h. (ap (λ o. (value s o).held) (sym h), ap (λ o. (value s o).queue) (sym h));
  sent_last =
      λ frame s s' h. (ap (λ o. (value s o).held) (sym h), ap (λ o. (value s o).queue) (sym h));
  taken = λ frame more rest s h.
      (record { held = s.held; queue = rest }, ap (take_frame s.held) h, refl);
}

abbrev nothing : Way
nothing = record { held = []; queue = [] }

abbrev client : List ℕ
client = 7 ∷ 8 ∷ []

abbrev order_arrived : Way
order_arrived = record {
  held = [];
  queue = (client, true) ∷ (u16_bytes 513, true) ∷ (42 ∷ [], false) ∷ [];
}

abbrev receipt_arrived : Way
receipt_arrived = record { held = []; queue = (u16_bytes 514, true) ∷ (43 ∷ [], false) ∷ [] }

order_sent : send_message (way (from_peer client)) 513 (42 ∷ []) nothing ≡ some order_arrived
unfolding send_message flagged
order_sent = refl

receipt_sent :
    send_router_message (way (to_peer client)) client 514 (43 ∷ []) nothing ≡ some receipt_arrived
unfolding send_router_message flagged to_peer is_same
receipt_sent = refl

recv_message-send_router_message_example :
    ((r : Way) × (recv_router_message (way (from_peer client)) order_arrived
        ≡ some (record { prefix = client; msg_type = 513; body = 42 ∷ []; socket = r }))
      × (r.queue ≡ []))
    × ((q : Way) × (recv_message (way (to_peer client)) receipt_arrived
          ≡ some (record { prefix = []; msg_type = 514; body = 43 ∷ []; socket = q }))
        × (q.queue ≡ []))
recv_message-send_router_message_example =
    recv_message-send_router_message (way (from_peer client)) (way (to_peer client)) client
      (way-IsRoute (from_peer client)) (way-IsRoute (to_peer client)) 513 514 (42 ∷ []) (43 ∷ [])
      nothing order_arrived nothing receipt_arrived (omega arith) (omega arith) (refl, refl)
      (refl, refl) order_sent receipt_sent
