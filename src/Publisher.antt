-- ===== src/Publisher.antt =====
-- gateway/src/PubServer.h and PubServer.cpp: publishing over a ZeroMQ socket with a state `S`. Sending a
-- frame is a parameter, which answers whether it succeeded and leaves the socket in some state; what the
-- creation and the binding of a socket answer are arguments.
mod Copies
use chater.Common.{
  ℕ, zero, suc, ◌+◌, ◌%◌, ◌^◌, Bool, true, false, ◌||◌, Option, none, some, List, [], ◌∷◌,
  if◌then◌else◌,
}
use chater.Packet.{u16_bytes}

pub record PubServer (S : Type 0) : Type 0 where
  pub pub_sock : Option S
  pub msg_seq : ℕ
  pub next_msg_id : ℕ

-- Which calls end a socket's life.
pub data Closing : Type 0 where
  closes : Closing

module _ {S : Type 0} (send : List ℕ → Bool → S → Bool × S) where
  -- `SendPubMessage` with the state of the socket also after a frame that fails.
  unfoldable pub send_frames : List ℕ → ℕ → List ℕ → S → Bool × S
  send_frames topic msg_type body s =
      let (ok0, s0) = send topic true s in
      if ok0
      then (let (ok1, s1) = send (u16_bytes msg_type) true s0 in
          if ok1 then send body false s1 else (false, s1))
      else (false, s0)

  -- The loop of `Publish`.
  unfoldable pub attempts : ℕ → List ℕ → ℕ → List ℕ → S → Bool × S
  unfolding send_frames
  attempts zero topic msg_type body s = (false, s)
  attempts (suc n) topic msg_type body s =
      let (ok, s') = send_frames topic msg_type body s in
      let (later, s'') = attempts n topic msg_type body s' in (ok || later, s'')

  abbrev pub retry_count : ℕ
  retry_count = 3

  unfoldable pub publish : List ℕ → ℕ → List ℕ → PubServer S → Bool × PubServer S
  unfolding attempts
  publish topic msg_type body p = elim p.pub_sock [
    | none ↦ (false, p)
    | some s ↦
        (let (ok, s') = attempts retry_count topic msg_type body s in
          (ok, record p { pub_sock = some s' }))
  ]

module _ {S : Type 0} where
  unfoldable pub new_publisher : PubServer S
  new_publisher = record { pub_sock = none; msg_seq = 0; next_msg_id = 0 }

  -- `Start`: its answer, the server, and whether a socket was closed that could not be bound.
  unfoldable pub start_publisher : Option S → Bool → PubServer S → Bool × PubServer S × List Closing
  start_publisher created bound p = elim p.pub_sock [
    | some s ↦ (false, p, [])
    | none ↦ elim created [
      | none ↦ (false, p, [])
      | some s ↦
          if bound then (true, record p { pub_sock = some s }, []) else (false, p, closes ∷ [])
    ]
  ]

  -- `Stop`, and the destructor.
  unfoldable pub stop_publisher : PubServer S → PubServer S × List Closing
  stop_publisher p = elim p.pub_sock [
    | none ↦ (p, [])
    | some s ↦ (record p { pub_sock = none }, closes ∷ [])
  ]

  unfoldable pub set_message_id : ℕ → PubServer S → PubServer S
  set_message_id id p = record p { next_msg_id = id }

  unfoldable pub next_message_id : PubServer S → ℕ × PubServer S
  next_message_id p = let n = (p.msg_seq + 1) % 2 ^ 64 in (n, record p { msg_seq = n })
