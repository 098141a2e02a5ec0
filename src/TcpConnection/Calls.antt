-- ===== src/TcpConnection/Calls.antt =====
-- Each method of a connection under what the kernel and the memory must grant it.
use chater.Common.{
  ℕ, ◌+◌, ◌≤◌, ◌≡◌, refl, ◌⊎◌, inl, inr, Bool, true, false, some, List, [], ◌∷◌, length, arith,
  max_size, Bool-cases, not, ◌&&◌, ◌==◌, ltb, if◌then◌else◌,
}
use chater.RingBuffer.{readable_bytes, received, read_capacity, extra_size}
use chater.RingBuffer.Operations.{peek-contents}
use chater.RingBuffer.ReadFd.{read_fd-LeavesWithin}
use chater.Channel.{is_writing, is_none_event, remove, disable_all, enable_reading, none_event}
use chater.TcpConnection.{
  State, connected, disconnected, disconnecting, connection_callback, close_callback,
  message_callback, queue_in_loop, shutdown_write, force_close_in_loop_later,
  shutdown_in_loop_later, send_in_loop_later, TcpConnection, Action, Outcome, WriteResult, wrote,
  would_block, peer_gone, other_error, is_open, is_connecting, is_connected, is_disconnected, send,
  send_in_loop, shutdown, shutdown_in_loop, force_close, force_close_in_loop, handle_close,
  connect_established, connect_destroyed, handle_read, handle_write, enqueue, attempt, no_attempt,
}
use chater.TcpConnection.Output.{IsValid, Sends, send_in_loop-Sends, enqueue_lem}
use chater.TcpConnection.Flush.{written_lem}
use chater.TcpConnection.Lifecycle.{}

-- `write` takes no more than it is offered.
abbrev pub Answers : ℕ → WriteResult → Type 0
Answers n (wrote k) = k ≤ n
Answers n would_block = Unit {0}
Answers n peer_gone = Unit {0}
Answers n other_error = Unit {0}

abbrev pub Succeeds : Outcome → Type 0
Succeeds r = (c' : TcpConnection) × (acts : List Action) × (r ≡ some (c', acts)) × IsValid c'

pub Sends-Succeeds :
    (bytes : List ℕ) (c : TcpConnection) {r : Outcome} → Sends bytes c r → Succeeds r
Sends-Succeeds bytes c (c', acts, done, v, _, _) = (c', acts, done, v)

pub send_gone-Succeeds :
    (bytes : List ℕ) (c : TcpConnection)
    → IsValid c
    → is_disconnected c.state ≡ false
    → c.output_buffer.write_index + length bytes ≤ max_size
    → Succeeds (send_in_loop bytes peer_gone c)
unfolding send_in_loop attempt
send_gone-Succeeds bytes c v up fits =
    elim (Bool-cases (not (is_writing c.channel) && readable_bytes c.output_buffer == 0)) [
      | inl idle ↦ (c, [], rw (up, idle) (unfold enqueue in ground arith), v)
      | inr busy ↦
          let (c', acts, done, v', _, _, _) =
            enqueue_lem bytes no_attempt c v refl (omega arith) fits in
          (c', acts, rw (up, busy) done, v')
    ]

pub send_open-Succeeds :
    (bytes : List ℕ) (result : WriteResult) (c : TcpConnection)
    → IsValid c
    → is_disconnected c.state ≡ false
    → Answers (length bytes) result
    → c.output_buffer.write_index + length bytes ≤ max_size
    → Succeeds (send_in_loop bytes result c)
send_open-Succeeds bytes (wrote n) c v up ok fits =
    Sends-Succeeds bytes c (send_in_loop-Sends bytes (wrote n) c v up ok fits)
send_open-Succeeds bytes would_block c v up ok fits =
    Sends-Succeeds bytes c (send_in_loop-Sends bytes would_block c v up ok fits)
send_open-Succeeds bytes other_error c v up ok fits =
    Sends-Succeeds bytes c (send_in_loop-Sends bytes other_error c v up ok fits)
send_open-Succeeds bytes peer_gone c v up ok fits = send_gone-Succeeds bytes c v up fits

pub send_in_loop-Succeeds :
    (bytes : List ℕ) (result : WriteResult) (c : TcpConnection)
    → IsValid c
    → Answers (length bytes) result
    → c.output_buffer.write_index + length bytes ≤ max_size
    → Succeeds (send_in_loop bytes result c)
send_in_loop-Succeeds bytes result c v ok fits = elim (Bool-cases (is_disconnected c.state)) [
  | inl gone ↦ (c, [], unfold send_in_loop in rw gone refl, v)
  | inr up ↦ send_open-Succeeds bytes result c v up ok fits
]

pub handle_write-Succeeds :
    (n : ℕ) (c : TcpConnection)
    → IsValid c
    → n ≤ readable_bytes c.output_buffer
    → Succeeds (handle_write (wrote n) c)
unfolding handle_write
handle_write-Succeeds n c v fits = elim (Bool-cases (is_writing c.channel && ltb 0 n)) [
  | inl goes ↦
      let (c', acts, done, v', _, _) = written_lem n c v (ground arith) fits in
      (c', acts, rw (goes, peek-contents c.output_buffer n v.output fits) done, v')
  | inr stays ↦ (c, [], rw stays refl, v)
]

pub handle_close-Succeeds :
    (c : TcpConnection) → IsValid c → is_open c.state ≡ true → Succeeds (handle_close c)
unfolding handle_close
handle_close-Succeeds c v up = (
  record c { state = disconnected; channel = disable_all c.channel },
  connection_callback false ∷ close_callback ∷ [],
  rw up refl,
  record { input = v.input; output = v.output; waits = inl refl },
)

pub force_close_in_loop-Succeeds :
    (c : TcpConnection) → IsValid c → Succeeds (force_close_in_loop c)
unfolding force_close_in_loop
force_close_in_loop-Succeeds c v = elim (Bool-cases (is_open c.state)) [
  | inl up ↦ let (c', acts, done, v') = handle_close-Succeeds c v up in (c', acts, rw up done, v')
  | inr down ↦ (c, [], rw down refl, v)
]

-- A new state that is not closed, reached from one that is not closed either.
restate-IsValid :
    (c : TcpConnection) (s : State)
    → IsValid c
    → is_disconnected c.state ≡ false
    → IsValid (record c { state = s })
restate-IsValid c s v up = record {
  input = v.input;
  output = v.output;
  waits = inr (ground (arith, v.waits));
}

pub force_close-Succeeds : (c : TcpConnection) → IsValid c → Succeeds (force_close c)
unfolding force_close
force_close-Succeeds c v = elim (Bool-cases (is_open c.state)) [
  | inl up ↦ (
    record c { state = disconnecting },
    queue_in_loop force_close_in_loop_later ∷ [],
    rw up refl,
    restate-IsValid c disconnecting v (ground arith),
  )
  | inr down ↦ (c, [], rw down refl, v)
]

pub shutdown-Succeeds : (here : Bool) (c : TcpConnection) → IsValid c → Succeeds (shutdown here c)
unfolding shutdown shutdown_in_loop
shutdown-Succeeds here c v = elim (Bool-cases (is_connected c.state)) [
  | inl up ↦ (
    record c { state = disconnecting },
    if here
        then (if is_writing c.channel then [] else shutdown_write ∷ [])
        else queue_in_loop shutdown_in_loop_later ∷ [],
    ground arith,
    restate-IsValid c disconnecting v (ground arith),
  )
  | inr down ↦ (c, [], rw down refl, v)
]

pub send-Succeeds :
    (here : Bool) (bytes : List ℕ) (result : WriteResult) (c : TcpConnection)
    → IsValid c
    → Answers (length bytes) result
    → c.output_buffer.write_index + length bytes ≤ max_size
    → Succeeds (send here bytes result c)
unfolding send
send-Succeeds here bytes result c v ok fits = elim (Bool-cases (is_connected c.state)) [
  | inl up ↦ elim (Bool-cases here) [
    | inl inside ↦
        let (c', acts, done, v') = send_in_loop-Succeeds bytes result c v ok fits in
        (c', acts, rw (up, inside) done, v')
    | inr outside ↦ (c, queue_in_loop (send_in_loop_later bytes) ∷ [], rw (up, outside) refl, v)
  ]
  | inr down ↦ (c, [], rw down refl, v)
]

pub connect_established-Succeeds :
    (c : TcpConnection)
    → IsValid c
    → is_connecting c.state ≡ true
    → Succeeds (connect_established c)
unfolding connect_established enable_reading is_writing
connect_established-Succeeds c v new = (
  record c { state = connected; channel = enable_reading c.channel },
  connection_callback true ∷ [],
  rw new refl,
  record { input = v.input; output = v.output; waits = inr (ground (arith, v.waits)) },
)

pub connect_destroyed-Succeeds :
    (c : TcpConnection)
    → IsValid c
    → (is_connected c.state ≡ true) ⊎ (is_none_event c.channel ≡ true)
    → Succeeds (connect_destroyed c)
unfolding connect_destroyed remove disable_all is_writing is_none_event
connect_destroyed-Succeeds c v ok = elim (Bool-cases (is_connected c.state)) [
  | inl up ↦ (
    record c {
      state = disconnected;
      channel = record { events = none_event; added_to_loop = false };
    },
    connection_callback false ∷ [],
    ground arith,
    record { input = v.input; output = v.output; waits = inl refl },
  )
  | inr down ↦
      let ch = c.channel in
      (
        record c { channel = record ch { added_to_loop = false } },
        [],
        ground arith,
        record { input = v.input; output = v.output; waits = v.waits },
      )
]

pub handle_read-Succeeds :
    (x : ℕ) (xs : List ℕ) (c : TcpConnection)
    → IsValid c
    → length (x ∷ xs) ≤ read_capacity c.input_buffer
    → length c.input_buffer.buffer + extra_size ≤ max_size
    → Succeeds (handle_read (received (x ∷ xs)) c)
unfolding handle_read
handle_read-Succeeds x xs c v fits room =
    let (input, done, v', _, _) = read_fd-LeavesWithin c.input_buffer (x ∷ xs) v.input fits room in
    (
      record c { input_buffer = input },
      message_callback ∷ [],
      rw done refl,
      record { input = v'; output = v.output; waits = v.waits },
    )
