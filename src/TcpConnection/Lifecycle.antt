-- ===== src/TcpConnection/Lifecycle.antt =====
-- The life of a connection: its states and the callbacks, over any sequence of calls and events.
use chater.Common.{
  ℕ, ◌+◌, ◌≡◌, refl, Bool, true, false, some, List, [], ◌∷◌, ◌++◌, arith, if◌then◌else◌, ◌>>=◌,
  Option-cases, inl, inr, Bool-cases, not, ◌&&◌, ◌==◌, length, sub_size,
}
use chater.RingBuffer.{readable_bytes, ReadResult, received, failed}
use chater.Channel.{is_writing}
use chater.TcpConnection.{
  TcpConnection, Action, Outcome, WriteResult, wrote, would_block, peer_gone, other_error,
  queue_in_loop, wrote_bytes, shutdown_write, connection_callback, message_callback, close_callback,
  new_connection, is_open, is_connecting, is_disconnected, send, send_in_loop, shutdown,
  shutdown_in_loop, force_close, force_close_in_loop, handle_close, connect_established,
  connect_destroyed, handle_read, handle_write, written, enqueue, attempt, high_water, Attempt,
  no_attempt, write_complete_callback,
}

-- What can happen to a connection: its public methods, its functors and the channel's events.
pub data Event : Type 0 where
  establishes destroys closes forces_close force_closes_in_loop shuts_down_in_loop : Event
  shuts_down : Bool → Event
  sends : Bool → List ℕ → WriteResult → Event
  sends_in_loop : List ℕ → WriteResult → Event
  reads : ReadResult → Event
  writes : WriteResult → Event

unfoldable pub step : Event → TcpConnection → Outcome
step establishes c = connect_established c
step destroys c = connect_destroyed c
step closes c = handle_close c
step forces_close c = force_close c
step force_closes_in_loop c = force_close_in_loop c
step shuts_down_in_loop c = shutdown_in_loop c
step (shuts_down here) c = shutdown here c
step (sends here bytes result) c = send here bytes result c
step (sends_in_loop bytes result) c = send_in_loop bytes result c
step (reads result) c = handle_read result c
step (writes result) c = handle_write result c

unfoldable pub run : List Event → TcpConnection → Outcome
run [] c = some (c, [])
run (e ∷ es) c = do (c1, acts) ← step e c; (c2, more) ← run es c1; some (c2, acts ++ more)

-- How often the connection callback ran with `Connected()` true, and false.
abbrev pub ups : List Action → ℕ
ups [] = 0
ups (connection_callback true ∷ acts) = ups acts + 1
ups (connection_callback false ∷ acts) = ups acts
ups (queue_in_loop f ∷ acts) = ups acts
ups (wrote_bytes bytes ∷ acts) = ups acts
ups (shutdown_write ∷ acts) = ups acts
ups (message_callback ∷ acts) = ups acts
ups (close_callback ∷ acts) = ups acts

abbrev pub downs : List Action → ℕ
downs [] = 0
downs (connection_callback false ∷ acts) = downs acts + 1
downs (connection_callback true ∷ acts) = downs acts
downs (queue_in_loop f ∷ acts) = downs acts
downs (wrote_bytes bytes ∷ acts) = downs acts
downs (shutdown_write ∷ acts) = downs acts
downs (message_callback ∷ acts) = downs acts
downs (close_callback ∷ acts) = downs acts

abbrev pub started : TcpConnection → ℕ
started c = if is_connecting c.state then 0 else 1

abbrev pub alive : TcpConnection → ℕ
alive c = if is_open c.state then 1 else 0

ups-append : (xs ys : List Action) → ups (xs ++ ys) ≡ ups xs + ups ys
ups-append [] ys = omega arith
ups-append (connection_callback true ∷ acts) ys = omega (arith, ups-append acts ys)
ups-append (connection_callback false ∷ acts) ys = ups-append acts ys
ups-append (queue_in_loop f ∷ acts) ys = ups-append acts ys
ups-append (wrote_bytes bytes ∷ acts) ys = ups-append acts ys
ups-append (shutdown_write ∷ acts) ys = ups-append acts ys
ups-append (message_callback ∷ acts) ys = ups-append acts ys
ups-append (close_callback ∷ acts) ys = ups-append acts ys

downs-append : (xs ys : List Action) → downs (xs ++ ys) ≡ downs xs + downs ys
downs-append [] ys = omega arith
downs-append (connection_callback false ∷ acts) ys = omega (arith, downs-append acts ys)
downs-append (connection_callback true ∷ acts) ys = downs-append acts ys
downs-append (queue_in_loop f ∷ acts) ys = downs-append acts ys
downs-append (wrote_bytes bytes ∷ acts) ys = downs-append acts ys
downs-append (shutdown_write ∷ acts) ys = downs-append acts ys
downs-append (message_callback ∷ acts) ys = downs-append acts ys
downs-append (close_callback ∷ acts) ys = downs-append acts ys

-- One call accounts for the callbacks that it makes.
abbrev pub Accounts : TcpConnection → TcpConnection → List Action → Type 0
Accounts c c' acts =
    (started c + ups acts ≡ started c') × (alive c + ups acts ≡ alive c' + downs acts)

-- A call that only sends, writes or reads: the state stays and no connection callback runs.
abbrev pub Silent : TcpConnection → TcpConnection → List Action → Type 0
Silent c c' acts = (c'.state ≡ c.state) × (ups acts ≡ 0) × (downs acts ≡ 0)

Silent-Accounts :
    (c c' : TcpConnection) (acts : List Action) → Silent c c' acts → Accounts c c' acts
Silent-Accounts c c' acts (st, u, d) = rw (st, u, d) (omega arith, omega arith)

attempt-callbacks :
    (bytes : List ℕ) (result : WriteResult) (c : TcpConnection)
    → (ups (attempt bytes result c).actions ≡ 0) × (downs (attempt bytes result c).actions ≡ 0)
unfolding attempt
attempt-callbacks bytes (wrote n) c = ground arith
attempt-callbacks bytes would_block c = (refl, refl)
attempt-callbacks bytes peer_gone c = (refl, refl)
attempt-callbacks bytes other_error c = (refl, refl)

high_water-callbacks :
    (old remaining : ℕ) (c : TcpConnection)
    → (ups (high_water old remaining c) ≡ 0) × (downs (high_water old remaining c) ≡ 0)
unfolding high_water
high_water-callbacks old remaining c = ground arith

enqueue-Silent :
    (bytes : List ℕ) (a : Attempt) (c c' : TcpConnection) (acts : List Action)
    → (ups a.actions ≡ 0) × (downs a.actions ≡ 0)
    → enqueue bytes a c ≡ some (c', acts)
    → Silent c c' acts
unfolding enqueue
enqueue-Silent bytes a c c' acts q e =
    let more = high_water (readable_bytes c.output_buffer) (sub_size (length bytes) a.nwrote) c in
    ground (
      arith,
      q,
      ups-append a.actions more,
      downs-append a.actions more,
      high_water-callbacks (readable_bytes c.output_buffer) (sub_size (length bytes) a.nwrote) c,
    )

send_in_loop-Silent :
    (bytes : List ℕ) (result : WriteResult) (c c' : TcpConnection) (acts : List Action)
    → send_in_loop bytes result c ≡ some (c', acts)
    → Silent c c' acts
unfolding send_in_loop
send_in_loop-Silent bytes result c c' acts e = elim (Bool-cases (is_disconnected c.state)) [
  | inl gone ↦ ground arith
  | inr up ↦
      let test = not (is_writing c.channel) && readable_bytes c.output_buffer == 0 in
      elim (Bool-cases test) [
        | inl idle ↦
            enqueue-Silent bytes (attempt bytes result c) c c' acts
              (attempt-callbacks bytes result c) (ground arith)
        | inr busy ↦ enqueue-Silent bytes no_attempt c c' acts (refl, refl) (ground arith)
      ]
]

handle_write-Silent :
    (result : WriteResult) (c c' : TcpConnection) (acts : List Action)
    → handle_write result c ≡ some (c', acts)
    → Silent c c' acts
unfolding handle_write written shutdown_in_loop
handle_write-Silent (wrote n) c c' acts e = ground (
  arith,
  ups-append (if c.has_write_complete then queue_in_loop write_complete_callback ∷ [] else []),
)
handle_write-Silent would_block c c' acts e = ground arith
handle_write-Silent peer_gone c c' acts e = ground arith
handle_write-Silent other_error c c' acts e = ground arith

-- Every call or event accounts for its callbacks.
step-Accounts :
    (e : Event) (c c' : TcpConnection) (acts : List Action)
    → step e c ≡ some (c', acts)
    → Accounts c c' acts
unfolding step connect_established connect_destroyed handle_close force_close force_close_in_loop
    shutdown shutdown_in_loop handle_read send
step-Accounts establishes c c' acts e = ground arith
step-Accounts destroys c c' acts e = ground arith
step-Accounts closes c c' acts e = ground arith
step-Accounts forces_close c c' acts e = ground arith
step-Accounts force_closes_in_loop c c' acts e = ground arith
step-Accounts shuts_down_in_loop c c' acts e = ground arith
step-Accounts (shuts_down here) c c' acts e = ground arith
step-Accounts (sends here bytes result) c c' acts e =
    ground (arith, send_in_loop-Silent bytes result c c' acts)
step-Accounts (sends_in_loop bytes result) c c' acts e =
    Silent-Accounts c c' acts (send_in_loop-Silent bytes result c c' acts e)
step-Accounts (reads (failed errno)) c c' acts e = ground arith
step-Accounts (reads (received [])) c c' acts e = ground arith
step-Accounts (reads (received (x ∷ xs))) c c' acts e = ground arith
step-Accounts (writes result) c c' acts e =
    Silent-Accounts c c' acts (handle_write-Silent result c c' acts e)

run-Accounts :
    (es : List Event) (c c' : TcpConnection) (acts : List Action)
    → run es c ≡ some (c', acts)
    → Accounts c c' acts
unfolding run
run-Accounts [] c c' acts e = ground arith
run-Accounts (v ∷ es) c c' acts e = elim (Option-cases (step v c)) [
  | inl failed_step ↦ absurd (ground arith)
  | inr ((c1, first), one) ↦ elim (Option-cases (run es c1)) [
    | inl failed_run ↦ absurd (ground arith)
    | inr ((c2, more), rest) ↦ ground (
      arith,
      step-Accounts v c c1 first one,
      run-Accounts es c1 c2 more rest,
      ups-append first more,
      downs-append first more,
    )
  ]
]

-- Over any sequence of calls and events on a new connection that fails no assertion, the
-- connection callback has run once with the connection up if it was ever established and else
-- never, and has run once with it down if it was established and is no longer open, else never.
pub run-callbacks :
    (es : List Event) (write_complete : Bool) (c : TcpConnection) (acts : List Action)
    → run es (new_connection write_complete) ≡ some (c, acts)
    → (ups acts ≡ started c) × (downs acts + alive c ≡ started c)
unfolding new_connection
run-callbacks es write_complete c acts e =
    let (u, d) = run-Accounts es (new_connection write_complete) c acts e in
    (omega (arith, u), omega (arith, u, d))
