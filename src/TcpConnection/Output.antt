-- ===== src/TcpConnection/Output.antt =====
-- The output side of a connection: what `SendInLoop` writes at once and what it leaves waiting.
use chater.Common.{
  ℕ, ◌+◌, ◌-◌, ◌≤◌, ◌≡◌, refl, sym, ap, ◌∙◌, ◌⊎◌, inl, inr, true, false, not, ◌&&◌, some, List, [],
  ◌∷◌, ◌++◌, length, take, drop, arith, max_size, append-nil, append_assoc, length-drop,
  take-append-drop, drop-all, ltb, ◌==◌, if◌then◌else◌, Bool-cases, eq_nil_of_length, length-append,
}
use native.Mathlib.Decide.{dec_lt}
use chater.RingBuffer.{RingBuffer, readable_bytes}
use chater.RingBuffer.Invariant.{readable_lem}
use chater.RingBuffer.Invariant
use chater.RingBuffer.Contents.{contents, length-contents}
use chater.RingBuffer.Append.{append-Leaves}
use chater.Channel.{is_writing, enable_writing}
use chater.TcpConnection.{
  TcpConnection, Action, Outcome, WriteResult, wrote, would_block, peer_gone, other_error,
  queue_in_loop, wrote_bytes, shutdown_write, connection_callback, message_callback, close_callback,
  Attempt, no_attempt, attempt, high_water, enqueue, send_in_loop, is_disconnected,
}

-- The bytes that a list of actions writes to the socket.
abbrev pub wire : List Action → List ℕ
wire [] = []
wire (wrote_bytes bytes ∷ acts) = bytes ++ wire acts
wire (queue_in_loop f ∷ acts) = wire acts
wire (shutdown_write ∷ acts) = wire acts
wire (connection_callback up ∷ acts) = wire acts
wire (message_callback ∷ acts) = wire acts
wire (close_callback ∷ acts) = wire acts

wire-append : (xs ys : List Action) → wire (xs ++ ys) ≡ wire xs ++ wire ys
wire-append [] ys = refl
wire-append (wrote_bytes bytes ∷ xs) ys =
    ap (λ t. bytes ++ t) (wire-append xs ys) ∙ sym (append_assoc bytes (wire xs) (wire ys))
wire-append (queue_in_loop f ∷ xs) ys = wire-append xs ys
wire-append (shutdown_write ∷ xs) ys = wire-append xs ys
wire-append (connection_callback up ∷ xs) ys = wire-append xs ys
wire-append (message_callback ∷ xs) ys = wire-append xs ys
wire-append (close_callback ∷ xs) ys = wire-append xs ys

-- The buffers are valid, and an open connection waits for writing exactly while bytes wait.
pub record IsValid (c : TcpConnection) : Type 0 where
  pub input : Invariant.IsValid c.input_buffer
  pub output : Invariant.IsValid c.output_buffer
  pub waits :
      (is_disconnected c.state ≡ true)
      ⊎ (is_writing c.channel ≡ ltb 0 (readable_bytes c.output_buffer))

-- What `write` may answer for `n` bytes without losing the connection.
abbrev pub Accepts : ℕ → WriteResult → Type 0
Accepts n (wrote k) = k ≤ n
Accepts n would_block = Unit {0}
Accepts n other_error = Unit {0}
Accepts n peer_gone = ⊥

high_water-wire : (old remaining : ℕ) (c : TcpConnection) → wire (high_water old remaining c) ≡ []
unfolding high_water
high_water-wire old remaining c = ground arith

readable-contents : (b : RingBuffer) → Invariant.IsValid b → readable_bytes b ≡ length (contents b)
readable-contents b v = readable_lem v ∙ sym (length-contents b v)

-- The second part of `SendInLoop` puts what was not written behind the bytes that wait.
pub enqueue_lem :
    (bytes : List ℕ) (a : Attempt) (c : TcpConnection)
    → IsValid c
    → a.fault_error ≡ false
    → a.nwrote ≤ length bytes
    → c.output_buffer.write_index + length bytes ≤ max_size
    → (c' : TcpConnection) × (acts : List Action) × (enqueue bytes a c ≡ some (c', acts))
      × IsValid c'
      × (c'.state ≡ c.state)
      × (contents c'.output_buffer ≡ contents c.output_buffer ++ drop a.nwrote bytes)
      × (wire acts ≡ wire a.actions)
unfolding enqueue is_writing enable_writing
enqueue_lem bytes a c v sound took fits = elim (dec_lt a.nwrote (length bytes)) [
  | yes more ↦
      let (output, done, v', same) =
        append-Leaves c.output_buffer (drop a.nwrote bytes) v.output
          (omega (arith, length-drop a.nwrote bytes)) in
      (
        record c {
          output_buffer = output;
          channel = if is_writing c.channel then c.channel else enable_writing c.channel;
        },
        a.actions ++ high_water (readable_bytes c.output_buffer) (length bytes - a.nwrote) c,
        ground (arith, done),
        record {
          input = v.input;
          output = v';
          waits = inr (
              ground (
                arith,
                readable-contents output v',
                ap length same,
                length-append (contents c.output_buffer) (drop a.nwrote bytes),
                length-drop a.nwrote bytes,
              ));
        },
        refl,
        same,
        wire-append a.actions _
            ∙ ap (λ t. wire a.actions ++ t) (high_water-wire _ _ c)
            ∙ append-nil (wire a.actions),
      )
  | no all ↦ (
    c,
    a.actions,
    ground arith,
    v,
    refl,
    sym (
        ap (λ t. contents c.output_buffer ++ t) (drop-all a.nwrote bytes (omega arith))
        ∙ append-nil (contents c.output_buffer)),
    refl,
  )
]

-- Nothing waits in the buffer of an open connection that does not wait for writing.
idle-empty :
    (c : TcpConnection)
    → IsValid c
    → is_disconnected c.state ≡ false
    → readable_bytes c.output_buffer ≡ 0
    → (contents c.output_buffer ≡ []) × (is_writing c.channel ≡ false)
idle-empty c v up z = (
  eq_nil_of_length _ (omega (arith, readable-contents c.output_buffer v.output)),
  ground (arith, v.waits),
)

abbrev pub Sends : List ℕ → TcpConnection → Outcome → Type 0
Sends bytes c r =
    (c' : TcpConnection) × (acts : List Action) × (r ≡ some (c', acts))
    × IsValid c'
    × (c'.state ≡ c.state)
    × (wire acts ++ contents c'.output_buffer ≡ contents c.output_buffer ++ bytes)

-- What `write` takes at once is the front of the bytes.
attempt_lem :
    (bytes : List ℕ) (result : WriteResult) (c : TcpConnection)
    → Accepts (length bytes) result
    → ((attempt bytes result c).fault_error ≡ false)
      × ((attempt bytes result c).nwrote ≤ length bytes)
      × (wire (attempt bytes result c).actions ≡ take (attempt bytes result c).nwrote bytes)
unfolding attempt
attempt_lem bytes (wrote n) c ok = (refl, ok, ground (arith, append-nil (take n bytes)))
attempt_lem bytes would_block c ok = (refl, omega arith, refl)
attempt_lem bytes other_error c ok = (refl, omega arith, refl)
attempt_lem bytes peer_gone c ok = absurd ok

-- The attempt of `SendInLoop`, made only where nothing waits.
unfoldable pub tried : List ℕ → WriteResult → TcpConnection → Attempt
tried bytes result c =
    if not (is_writing c.channel) && readable_bytes c.output_buffer == 0
    then attempt bytes result c
    else no_attempt

tried_lem :
    (bytes : List ℕ) (result : WriteResult) (c : TcpConnection)
    → IsValid c
    → is_disconnected c.state ≡ false
    → Accepts (length bytes) result
    → ((tried bytes result c).fault_error ≡ false)
      × ((tried bytes result c).nwrote ≤ length bytes)
      × (wire (tried bytes result c).actions
            ++ (contents c.output_buffer ++ drop (tried bytes result c).nwrote bytes)
          ≡ contents c.output_buffer ++ bytes)
unfolding tried
tried_lem bytes result c v up ok =
    elim (Bool-cases (not (is_writing c.channel) && readable_bytes c.output_buffer == 0)) [
      | inl idle ↦
          let (sound, took, sent) = attempt_lem bytes result c ok in
          let (nothing, _) = idle-empty c v up (ground arith) in
          rw idle (
            sound,
            took,
            rw (nothing, sent) (take-append-drop (attempt bytes result c).nwrote bytes),
          )
      | inr busy ↦ rw busy (refl, omega arith, refl)
    ]

-- `SendInLoop` on a valid connection that is not disconnected, unless the peer is gone, when `write`
-- takes at most what it is offered and the output buffer may grow by the bytes: what it writes at once,
-- and then what waits in the buffer, is what waited before, and then the bytes sent. It keeps the
-- connection valid and its state.
pub send_in_loop-Sends :
    (bytes : List ℕ) (result : WriteResult) (c : TcpConnection)
    → IsValid c
    → is_disconnected c.state ≡ false
    → Accepts (length bytes) result
    → c.output_buffer.write_index + length bytes ≤ max_size
    → Sends bytes c (send_in_loop bytes result c)
unfolding send_in_loop tried
send_in_loop-Sends bytes result c v up ok fits =
    let (sound, took, sent) = tried_lem bytes result c v up ok in
    let (c', acts, done, v', st, kept, out) =
      enqueue_lem bytes (tried bytes result c) c v sound took fits in
    (
      c',
      acts,
      rw up done,
      v',
      st,
      ap (λ t. t ++ contents c'.output_buffer) out
          ∙ ap (λ t. wire (tried bytes result c).actions ++ t) kept
          ∙ sent,
    )
