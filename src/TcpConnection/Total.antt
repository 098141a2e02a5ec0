-- ===== src/TcpConnection/Total.antt =====
-- All calls and events of a connection, each under its condition.
use chater.Common.{◌+◌, ◌≤◌, ◌≡◌, refl, ◌⊎◌, true, [], ◌∷◌, length, max_size, if◌then◌else◌}
use chater.RingBuffer.{readable_bytes, received, failed, read_capacity, extra_size}
use chater.Channel.{is_writing, is_none_event}
use chater.TcpConnection.{
  shutdown_write, TcpConnection, wrote, would_block, peer_gone, other_error, is_open, is_connecting,
  is_connected, shutdown_in_loop, handle_read, handle_write,
}
use chater.TcpConnection.Output.{IsValid}
use chater.TcpConnection.Lifecycle.{
  Event, establishes, destroys, closes, forces_close, force_closes_in_loop, shuts_down_in_loop,
  shuts_down, sends, sends_in_loop, reads, writes, step,
}
use chater.TcpConnection.Calls.{
  Answers, Succeeds, send_in_loop-Succeeds, handle_write-Succeeds, handle_close-Succeeds,
  force_close_in_loop-Succeeds, force_close-Succeeds, shutdown-Succeeds, send-Succeeds,
  connect_established-Succeeds, connect_destroyed-Succeeds, handle_read-Succeeds,
}

-- What the loop, the kernel and the memory must grant.
abbrev pub Allowed : Event → TcpConnection → Type 0
Allowed establishes c = is_connecting c.state ≡ true
Allowed destroys c = (is_connected c.state ≡ true) ⊎ (is_none_event c.channel ≡ true)
Allowed closes c = is_open c.state ≡ true
Allowed forces_close c = Unit {0}
Allowed force_closes_in_loop c = Unit {0}
Allowed shuts_down_in_loop c = Unit {0}
Allowed (shuts_down here) c = Unit {0}
Allowed (sends here bytes result) c =
    Answers (length bytes) result × (c.output_buffer.write_index + length bytes ≤ max_size)
Allowed (sends_in_loop bytes result) c =
    Answers (length bytes) result × (c.output_buffer.write_index + length bytes ≤ max_size)
Allowed (reads (failed errno)) c = Unit {0}
Allowed (reads (received [])) c = is_open c.state ≡ true
Allowed (reads (received (x ∷ xs))) c =
    (length (x ∷ xs) ≤ read_capacity c.input_buffer)
    × (length c.input_buffer.buffer + extra_size ≤ max_size)
Allowed (writes (wrote n)) c = n ≤ readable_bytes c.output_buffer
Allowed (writes would_block) c = Unit {0}
Allowed (writes peer_gone) c = Unit {0}
Allowed (writes other_error) c = Unit {0}

pub step-Succeeds : (e : Event) (c : TcpConnection) → IsValid c → Allowed e c → Succeeds (step e c)
unfolding step
step-Succeeds establishes c v ok = connect_established-Succeeds c v ok
step-Succeeds destroys c v ok = connect_destroyed-Succeeds c v ok
step-Succeeds closes c v ok = handle_close-Succeeds c v ok
step-Succeeds forces_close c v ok = force_close-Succeeds c v
step-Succeeds force_closes_in_loop c v ok = force_close_in_loop-Succeeds c v
step-Succeeds shuts_down_in_loop c v ok = (
  c,
  if is_writing c.channel then [] else shutdown_write ∷ [],
  unfold shutdown_in_loop in refl,
  v,
)
step-Succeeds (shuts_down here) c v ok = shutdown-Succeeds here c v
step-Succeeds (sends here bytes result) c v ok = send-Succeeds here bytes result c v ok.0 ok.1
step-Succeeds (sends_in_loop bytes result) c v ok = send_in_loop-Succeeds bytes result c v ok.0 ok.1
step-Succeeds (reads (failed errno)) c v ok = (c, [], unfold handle_read in refl, v)
step-Succeeds (reads (received [])) c v ok = unfold handle_read in handle_close-Succeeds c v ok
step-Succeeds (reads (received (x ∷ xs))) c v ok = handle_read-Succeeds x xs c v ok.0 ok.1
step-Succeeds (writes (wrote n)) c v ok = handle_write-Succeeds n c v ok
step-Succeeds (writes would_block) c v ok = (c, [], unfold handle_write in refl, v)
step-Succeeds (writes peer_gone) c v ok = (c, [], unfold handle_write in refl, v)
step-Succeeds (writes other_error) c v ok = (c, [], unfold handle_write in refl, v)
