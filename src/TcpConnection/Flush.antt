-- ===== src/TcpConnection/Flush.antt =====
-- `HandleWrite`, and the whole output side over any history of sending and writing.
use chater.Common.{
  ℕ, ◌+◌, ◌≤◌, ◌≡◌, ◌≢◌, refl, sym, ap, ◌∙◌, inr, true, false, some, List, [], ◌∷◌, ◌++◌, length,
  take, drop, arith, max_size, append-nil, append_assoc, take-append-drop, if◌then◌else◌, lt→ltb,
  subst,
}
use native.Mathlib.Decide.{dec_lt, ℕ_discrete}
use chater.RingBuffer.{RingBuffer, readable_bytes, retrieve}
use chater.RingBuffer.Contents.{contents}
use chater.RingBuffer.Operations.{retrieve-Leaves, peek-contents}
use chater.Channel.{is_writing, disable_writing}
use chater.TcpConnection.{
  TcpConnection, Action, Outcome, WriteResult, wrote, queue_in_loop, wrote_bytes, shutdown_write,
  send_in_loop, is_disconnected, is_disconnecting, write_complete_callback, written, handle_write,
  shutdown_in_loop,
}
use chater.TcpConnection.Output.{wire, IsValid, Accepts, Sends, send_in_loop-Sends}

-- What is done once the buffer has run empty: the callback is queued, and a connection that is
-- being shut down closes its side.
unfoldable pub after_flush : TcpConnection → List Action
after_flush c =
    (if c.has_write_complete then queue_in_loop write_complete_callback ∷ [] else [])
    ++ (if is_disconnecting c.state then shutdown_write ∷ [] else [])

written_flushed :
    (n : ℕ) (bytes : List ℕ) (c : TcpConnection) (output : RingBuffer)
    → retrieve n c.output_buffer ≡ some output
    → readable_bytes output ≡ 0
    → written n bytes c
      ≡ some (
        record c { output_buffer = output; channel = disable_writing c.channel },
        wrote_bytes bytes ∷ after_flush c,
      )
unfolding written after_flush shutdown_in_loop is_writing disable_writing
written_flushed n bytes c output done z = ground arith

written_partly :
    (n : ℕ) (bytes : List ℕ) (c : TcpConnection) (output : RingBuffer)
    → retrieve n c.output_buffer ≡ some output
    → readable_bytes output ≢ 0
    → written n bytes c ≡ some (record c { output_buffer = output }, wrote_bytes bytes ∷ [])
unfolding written
written_partly n bytes c output done nz = ground arith

after_flush-wire : (c : TcpConnection) → wire (after_flush c) ≡ []
unfolding after_flush
after_flush-wire c = ground arith

-- What was written and what is left are together what waited.
front_and_rest :
    (n : ℕ) (xs ys zs : List ℕ) → ys ≡ drop n xs → zs ≡ [] → (take n xs ++ zs) ++ ys ≡ xs ++ []
front_and_rest n xs ys zs e z =
    rw (e, z, append-nil (take n xs), append-nil xs) (take-append-drop n xs)

pub written_lem :
    (n : ℕ) (c : TcpConnection)
    → IsValid c
    → is_writing c.channel ≡ true
    → n ≤ readable_bytes c.output_buffer
    → Sends [] c (written n (take n (contents c.output_buffer)) c)
unfolding is_writing disable_writing
written_lem n c v w fits =
    let (output, done, v', left) = retrieve-Leaves c.output_buffer n v.output fits in
    elim (ℕ_discrete (readable_bytes output) 0) [
      | yes z ↦ (
        record c { output_buffer = output; channel = disable_writing c.channel },
        wrote_bytes (take n (contents c.output_buffer)) ∷ after_flush c,
        written_flushed n _ c output done z,
        record { input = v.input; output = v'; waits = inr (rw z) },
        refl,
        front_and_rest n (contents c.output_buffer) (contents output) (wire (after_flush c)) left
            (after_flush-wire c),
      )
      | no nz ↦ (
        record c { output_buffer = output },
        wrote_bytes (take n (contents c.output_buffer)) ∷ [],
        written_partly n _ c output done nz,
        record { input = v.input; output = v'; waits = inr (ground arith) },
        refl,
        front_and_rest n (contents c.output_buffer) (contents output) [] left refl,
      )
    ]

-- `HandleWrite` on a valid connection that is not disconnected, when `write` takes at most what it
-- is offered: what it writes and then what waits is what waited before. It keeps the connection valid
-- and its state.
pub handle_write-Sends :
    (n : ℕ) (c : TcpConnection)
    → IsValid c
    → is_disconnected c.state ≡ false
    → n ≤ readable_bytes c.output_buffer
    → Sends [] c (handle_write (wrote n) c)
unfolding handle_write
handle_write-Sends n c v up fits = elim (dec_lt 0 n) [
  | yes some_bytes ↦
      let waiting : is_writing c.channel ≡ true = ground (arith, v.waits) in
      let (c', acts, done, v', st, out) = written_lem n c v waiting fits in
      (
        c',
        acts,
        rw (waiting, lt→ltb 0 n some_bytes, peek-contents c.output_buffer n v.output fits) done,
        v',
        st,
        out,
      )
  | no none_taken ↦ (c, [], ground arith, v, refl, sym (append-nil (contents c.output_buffer)))
]

-- Sending and writing on an open connection, in any order: what was sent, and what was written.
pub data History (c : TcpConnection) : List ℕ → List ℕ → TcpConnection → Type 0 where
  start : History c [] [] c
  sends :
      {sent out : List ℕ} {d e : TcpConnection} (bytes : List ℕ) (result : WriteResult)
      (acts : List Action)
      → History c sent out d
      → Accepts (length bytes) result
      → d.output_buffer.write_index + length bytes ≤ max_size
      → send_in_loop bytes result d ≡ some (e, acts)
      → History c (sent ++ bytes) (out ++ wire acts) e
  writes :
      {sent out : List ℕ} {d e : TcpConnection} (n : ℕ) (acts : List Action)
      → History c sent out d
      → n ≤ readable_bytes d.output_buffer
      → handle_write (wrote n) d ≡ some (e, acts)
      → History c sent (out ++ wire acts) e

abbrev pub InOrder : TcpConnection → List ℕ → List ℕ → TcpConnection → Type 0
InOrder c sent out d =
    IsValid d
    × (is_disconnected d.state ≡ false)
    × (out ++ contents d.output_buffer ≡ contents c.output_buffer ++ sent)

-- A step that sends `bytes` extends what holds so far.
extend :
    (c d e : TcpConnection) (sent out bytes : List ℕ) (acts : List Action) {r : Outcome}
    → InOrder c sent out d
    → Sends bytes d r
    → r ≡ some (e, acts)
    → InOrder c (sent ++ bytes) (out ++ wire acts) e
extend c d e sent out bytes acts (v, up, order) (d', acts', done, v', st, moved) same =
    let e1 : d' ≡ e = cc in
    let e2 : acts' ≡ acts = cc in
    let moved' : wire acts ++ contents e.output_buffer ≡ contents d.output_buffer ++ bytes =
      rw (← e1, ← e2) moved in
    (
      subst IsValid e1 v',
      subst (λ t. is_disconnected t.state ≡ false) e1 (rw st up),
      append_assoc out (wire acts) (contents e.output_buffer)
          ∙ ap (λ t. out ++ t) moved'
          ∙ sym (append_assoc out (contents d.output_buffer) bytes)
          ∙ ap (λ t. t ++ bytes) order
          ∙ append_assoc (contents c.output_buffer) sent bytes,
    )

-- Over any history of sending and writing on a valid connection that is not disconnected, whatever
-- `write` takes each time without losing the peer, the bytes written and then those that wait are the
-- bytes that waited at first and then those sent, in order.
pub History-InOrder :
    {c d : TcpConnection} {sent out : List ℕ}
    → IsValid c
    → is_disconnected c.state ≡ false
    → History c sent out d
    → InOrder c sent out d
History-InOrder {c} v up start = (v, up, sym (append-nil (contents c.output_buffer)))
History-InOrder {c} v up (sends {sent} {out} {d} {e} bytes result acts h ok fits done) =
    let (v', up', order) = History-InOrder v up h in
    extend c d e sent out bytes acts (v', up', order)
      (send_in_loop-Sends bytes result d v' up' ok fits) done
History-InOrder {c} v up (writes {sent} {out} {d} {e} n acts h fits done) =
    let (v', up', order) = History-InOrder v up h in
    subst (λ t. InOrder c t (out ++ wire acts) e) (append-nil sent)
      (extend c d e sent out [] acts (v', up', order) (handle_write-Sends n d v' up' fits) done)
