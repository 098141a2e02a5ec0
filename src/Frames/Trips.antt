-- ===== src/Frames/Trips.antt =====
-- Sending and then receiving a message, over a socket that keeps the frames in order.
use chater.Common.{
  ℕ, ◌<◌, ◌≡◌, refl, ◌∙◌, Bool, true, false, some, List, [], ◌∷◌, ◌++◌, length, ◌>>=◌, arith, inl,
  inr, ◌==◌, ◌&&◌, ==_refl, if◌then◌else◌,
}
use chater.Common.Maps.{option-cases}
use chater.Packet.{u16_bytes, u16_at, u16_mod}
use chater.Frames.{
  Zmq, send_message, recv_message, send_router_message, recv_router_message, send_pub_message,
  recv_pub_message,
}

-- The frames of one message, as the receiver gets them: each but the last one with the flag for more.
unfoldable pub flagged : List (List ℕ) → List (List ℕ × Bool)
flagged [] = []
flagged (f ∷ []) = (f, false) ∷ []
flagged (f ∷ g ∷ fs) = (f, true) ∷ flagged (g ∷ fs)

-- What ZeroMQ documents of a way from one socket to another: frames are held back until the last one of
-- their message, and then the message arrives as a whole behind those that arrived before it, with its
-- frames changed as the types of the two sockets say; receiving takes the frames in their order.
pub record IsRoute {S : Type 0} (zmq : Zmq S) (change : List (List ℕ) → List (List ℕ))
    : Type 1 where
  pub held_back : S → List (List ℕ)
  pub arrived : S → List (List ℕ × Bool)
  pub sent_more :
      (frame : List ℕ) (s s' : S)
      → zmq.send frame true s ≡ some s'
      → (held_back s' ≡ held_back s ++ frame ∷ []) × (arrived s' ≡ arrived s)
  pub sent_last :
      (frame : List ℕ) (s s' : S)
      → zmq.send frame false s ≡ some s'
      → (held_back s' ≡ [])
        × (arrived s' ≡ arrived s ++ flagged (change (held_back s ++ frame ∷ [])))
  pub taken :
      (frame : List ℕ) (more : Bool) (rest : List (List ℕ × Bool)) (s : S)
      → arrived s ≡ (frame, more) ∷ rest
      → (s' : S) × (zmq.recv s ≡ some (frame, more, s')) × (arrived s' ≡ rest)

-- No message waits and none is begun.
abbrev pub IsQuiet :
    {S : Type 0} {zmq : Zmq S} {change : List (List ℕ) → List (List ℕ)}
    → IsRoute zmq change
    → S
    → Type 0
IsQuiet r s = (r.held_back s ≡ []) × (r.arrived s ≡ [])

-- A ROUTER socket puts the identity of the sender before a message that it receives, and takes the first
-- frame off a message that it sends, to find the receiver; here the only peer is the one with this identity.
abbrev pub from_peer : List ℕ → List (List ℕ) → List (List ℕ)
from_peer identity frames = identity ∷ frames

unfoldable pub is_same : List ℕ → List ℕ → Bool
is_same [] [] = true
is_same [] (y ∷ ys) = false
is_same (x ∷ xs) [] = false
is_same (x ∷ xs) (y ∷ ys) = x == y && is_same xs ys

is_same_refl : (xs : List ℕ) → is_same xs xs ≡ true
unfolding is_same
is_same_refl [] = refl
is_same_refl (x ∷ xs) = rw (==_refl x) (is_same_refl xs)

unfoldable pub to_peer : List ℕ → List (List ℕ) → List (List ℕ)
to_peer identity [] = []
to_peer identity (first ∷ frames) = if is_same first identity then frames else []

u16_lem : (n : ℕ) → n < u16_mod → (u16_at (u16_bytes n) 0 ≡ n) × (length (u16_bytes n) ≡ 2)
unfolding u16_at u16_bytes
u16_lem n h = ground arith

module _ {S : Type 0} (zmq : Zmq S) (change : List (List ℕ) → List (List ℕ))
    (route : IsRoute zmq change) where
  -- What two frames, and three, that are sent without an error bring to the other end.
  two-arrived :
      (a b : List ℕ) (s s' : S)
      → IsQuiet route s
      → (do s₁ ← zmq.send a true s; zmq.send b false s₁) ≡ some s'
      → route.arrived s' ≡ flagged (change (a ∷ b ∷ []))
  two-arrived a b s s' (none_held, none_there) h = elim (option-cases (zmq.send a true s)) [
    | inl e ↦ absurd (ground (arith, h, e))
    | inr (s₁, e) ↦
        let (held, there) = route.sent_more a s s₁ e in
        let (empty, came) = route.sent_last b s₁ s' (ground (arith, h, e)) in
        came ∙ rw (there, none_there, held, none_held) refl
  ]

  three-arrived :
      (a b c : List ℕ) (s s' : S)
      → IsQuiet route s
      → (do s₁ ← zmq.send a true s; s₂ ← zmq.send b true s₁; zmq.send c false s₂) ≡ some s'
      → route.arrived s' ≡ flagged (change (a ∷ b ∷ c ∷ []))
  three-arrived a b c s s' (none_held, none_there) h = elim (option-cases (zmq.send a true s)) [
    | inl e ↦ absurd (ground (arith, h, e))
    | inr (s₁, e₁) ↦ elim (option-cases (zmq.send b true s₁)) [
      | inl e ↦ absurd (ground (arith, h, e₁, e))
      | inr (s₂, e₂) ↦
          let (held₁, there₁) = route.sent_more a s s₁ e₁ in
          let (held₂, there₂) = route.sent_more b s₁ s₂ e₂ in
          let (empty, came) = route.sent_last c s₂ s' (ground (arith, h, e₁, e₂)) in
          came ∙ rw (there₂, there₁, none_there, held₂, held₁, none_held) refl
    ]
  ]

  -- A message of two frames, and one of three, that have arrived.
  two-received :
      (msg_type : ℕ) (body : List ℕ) (s : S)
      → msg_type < u16_mod
      → route.arrived s ≡ flagged (u16_bytes msg_type ∷ body ∷ [])
      → (r : S) × (recv_message zmq s
          ≡ some (record { prefix = []; msg_type = msg_type; body = body; socket = r }))
        × (route.arrived r ≡ [])
  unfolding recv_message flagged
  two-received msg_type body s range there =
      let (s₁, e₁, w₁) = route.taken (u16_bytes msg_type) true _ s there in
      let (s₂, e₂, w₂) = route.taken body false [] s₁ w₁ in
      let (value, two) = u16_lem msg_type range in (s₂, rw (e₁, two, e₂, value) refl, w₂)

  three-received :
      (prefix : List ℕ) (msg_type : ℕ) (body : List ℕ) (s : S)
      → msg_type < u16_mod
      → route.arrived s ≡ flagged (prefix ∷ u16_bytes msg_type ∷ body ∷ [])
      → (r : S) × (recv_router_message zmq s
          ≡ some (record { prefix = prefix; msg_type = msg_type; body = body; socket = r }))
        × (route.arrived r ≡ [])
  unfolding recv_router_message flagged
  three-received prefix msg_type body s range there =
      let (s₁, e₁, w₁) = route.taken prefix true _ s there in
      let (s₂, e₂, w₂) = route.taken (u16_bytes msg_type) true _ s₁ w₁ in
      let (s₃, e₃, w₃) = route.taken body false [] s₂ w₂ in
      let (value, two) = u16_lem msg_type range in (s₃, rw (e₁, e₂, two, e₃, value) refl, w₃)

pub recv_message-send_router_message :
    {S T : Type 0} (up : Zmq S) (down : Zmq T) (identity : List ℕ)
    (request_way : IsRoute up (from_peer identity)) (reply_way : IsRoute down (to_peer identity))
    (request_type reply_type : ℕ) (request reply : List ℕ) (s s' : S) (t t' : T)
    → request_type < u16_mod
    → reply_type < u16_mod
    → IsQuiet request_way s
    → IsQuiet reply_way t
    → send_message up request_type request s ≡ some s'
    → send_router_message down identity reply_type reply t ≡ some t'
    → ((r : S) × (recv_router_message up s'
          ≡ some
              (record { prefix = identity; msg_type = request_type; body = request; socket = r }))
        × (request_way.arrived r ≡ []))
      × ((q : T) × (recv_message down t'
            ≡ some (record { prefix = []; msg_type = reply_type; body = reply; socket = q }))
          × (reply_way.arrived q ≡ []))
unfolding send_message send_router_message to_peer
recv_message-send_router_message up down identity request_way reply_way request_type reply_type
      request reply s s' t t' small small' quiet quiet' sent sent' =
    (
      three-received up (from_peer identity) request_way identity request_type request s' small (
          two-arrived up (from_peer identity) request_way (u16_bytes request_type) request s s'
            quiet sent),
      two-received down (to_peer identity) reply_way reply_type reply t' small' (
          three-arrived down (to_peer identity) reply_way identity (u16_bytes reply_type) reply t t'
            quiet' sent'
          ∙ rw (to_peer, is_same_refl identity) refl),
    )

-- A publication from a PUB to a SUB socket keeps its frames: `SendPubMessage` without an error and then
-- `RecvPubMessage` give the same topic, 16-bit type and body.
pub recv_pub_message-send_pub_message :
    {S : Type 0} (zmq : Zmq S) (route : IsRoute zmq (λ frames. frames)) (topic : List ℕ)
    (msg_type : ℕ) (body : List ℕ) (s s' : S)
    → msg_type < u16_mod
    → IsQuiet route s
    → send_pub_message zmq topic msg_type body s ≡ some s'
    → (r : S) × (recv_pub_message zmq s'
        ≡ some (record { prefix = topic; msg_type = msg_type; body = body; socket = r }))
      × (route.arrived r ≡ [])
unfolding send_pub_message recv_pub_message recv_router_message
recv_pub_message-send_pub_message zmq route topic msg_type body s s' range quiet sent =
    three-received zmq (λ frames. frames) route topic msg_type body s' range
      (three-arrived zmq (λ frames. frames) route topic (u16_bytes msg_type) body s s' quiet sent)
