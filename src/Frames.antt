-- ===== src/Frames.antt =====
-- gateway/common/message_utils.cpp: messages of two and three frames over a ZeroMQ socket. ZeroMQ is
-- a parameter: a socket state `S`, sending one frame, and receiving one with the RCVMORE flag that
-- `zmq_getsockopt` then tells. `none` is an error. A number is written lowest byte first.
pub mod Trips
mod Tests
use chater.Common.{
  ℕ, zero, suc, ◌-◌, ◌≡◌, Bool, true, false, not, ◌&&◌, ◌||◌, Option, none, some, List, [], ◌∷◌,
  if◌then◌else◌, leb, length, ◌>>=◌, ◌>>◌, assert,
}
use chater.Packet.{u16_bytes, u16_at}

pub record Zmq (S : Type 0) : Type 0 where
  pub send : List ℕ → Bool → S → Option S
  pub recv : S → Option (List ℕ × Bool × S)

-- What `RecvMessage` and `RecvRouterMessage` fill in; a message of two frames has no prefix.
pub record Received (S : Type 0) : Type 0 where
  pub prefix : List ℕ
  pub msg_type : ℕ
  pub body : List ℕ
  pub socket : S

module _ {S : Type 0} (zmq : Zmq S) where
  -- `SendMessage`.
  unfoldable pub send_message : ℕ → List ℕ → S → Option S
  send_message msg_type body s = do
    s₁ ← zmq.send (u16_bytes msg_type) true s
    zmq.send body false s₁

  -- `RecvMessage`.
  unfoldable pub recv_message : S → Option (Received S)
  recv_message s = do
    (type_frame, more, s₁) ← zmq.recv s
    assert (leb 2 (length type_frame))
    assert more
    (body, rest, s₂) ← zmq.recv s₁
    some (record { prefix = []; msg_type = u16_at type_frame 0; body = body; socket = s₂ })

  -- `SendRouterMessage`, and `SendPubMessage` with the topic in place of the identity.
  unfoldable pub send_router_message : List ℕ → ℕ → List ℕ → S → Option S
  send_router_message identity msg_type body s = do
    s₁ ← zmq.send identity true s
    s₂ ← zmq.send (u16_bytes msg_type) true s₁
    zmq.send body false s₂

  -- `RecvRouterMessage`, and `RecvPubMessage`.
  unfoldable pub recv_router_message : S → Option (Received S)
  recv_router_message s = do
    (identity, more, s₁) ← zmq.recv s
    assert more
    (type_frame, more', s₂) ← zmq.recv s₁
    assert (leb 2 (length type_frame))
    assert more'
    (body, rest, s₃) ← zmq.recv s₂
    some (record { prefix = identity; msg_type = u16_at type_frame 0; body = body; socket = s₃ })

  unfoldable pub send_pub_message : List ℕ → ℕ → List ℕ → S → Option S
  send_pub_message topic msg_type body s = do
    s₁ ← zmq.send topic true s
    s₂ ← zmq.send (u16_bytes msg_type) true s₁
    zmq.send body false s₂

  unfoldable pub recv_pub_message : S → Option (Received S)
  recv_pub_message s = do
    (topic, more, s₁) ← zmq.recv s
    assert more
    (type_frame, more', s₂) ← zmq.recv s₁
    assert (leb 2 (length type_frame))
    assert more'
    (body, rest, s₃) ← zmq.recv s₂
    some (record { prefix = topic; msg_type = u16_at type_frame 0; body = body; socket = s₃ })
