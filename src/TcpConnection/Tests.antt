-- ===== src/TcpConnection/Tests.antt =====
-- Runs of a connection, and its theorems at small inputs.
use chater.Common.{◌+◌, ◌*◌, ◌≡◌, refl, true, false, some, List, [], ◌∷◌, arith, inr, load}
use chater.RingBuffer.{RingBuffer, readable_bytes, retrieve, peek, new_buffer}
use chater.Channel.{
  new_channel, is_writing, enable_reading, disable_all, none_event, remove, disable_writing,
}
use chater.TcpConnection.{
  TcpConnection, connected, disconnected, disconnecting, Action, queue_in_loop, wrote_bytes,
  shutdown_write, connection_callback, close_callback, write_complete_callback,
  force_close_in_loop_later, wrote, send_in_loop, handle_write, written, enqueue, attempt,
  shutdown_in_loop, force_close, force_close_in_loop, handle_close, new_connection,
  connect_established, connect_destroyed,
}
use chater.TcpConnection.Output.{IsValid}
use chater.TcpConnection.Flush.{History, InOrder, History-InOrder}
use chater.TcpConnection.Lifecycle.{
  Event, establishes, destroys, forces_close, force_closes_in_loop, step, run, ups, downs,
  run-callbacks,
}
use chater.TcpConnection.Calls.{Succeeds}
use chater.TcpConnection.Total.{step-Succeeds}

abbrev quiet : RingBuffer
quiet = record { buffer = 0 ∷ 0 ∷ 0 ∷ 0 ∷ []; read_index = 0; write_index = 0 }

abbrev idle : TcpConnection
idle = record {
  state = connected;
  channel = new_channel;
  has_write_complete = true;
  has_high_water_mark = false;
  high_water_mark = 1000;
  conn_id = 1;
  input_buffer = quiet;
  output_buffer = quiet;
}

-- Two bytes wait.
abbrev blocked : TcpConnection
blocked = record idle {
  channel = record { events = record none_event { out_bit = true }; added_to_loop = true };
  output_buffer = record { buffer = 7 ∷ 8 ∷ 0 ∷ 0 ∷ []; read_index = 0; write_index = 2 };
}

idle-IsValid : IsValid idle
unfolding is_writing readable_bytes
idle-IsValid = record { input = omega arith; output = omega arith; waits = inr refl }

blocked-IsValid : IsValid blocked
unfolding is_writing readable_bytes
blocked-IsValid = record { input = omega arith; output = omega arith; waits = inr refl }

sends_all :
    send_in_loop (5 ∷ 6 ∷ []) (wrote 2) idle
    ≡ some (idle, wrote_bytes (5 ∷ 6 ∷ []) ∷ queue_in_loop write_complete_callback ∷ [])
unfolding send_in_loop enqueue attempt is_writing readable_bytes
sends_all = refl

flushes_and_shuts_down :
    handle_write (wrote 2) (record blocked { state = disconnecting })
    ≡ some (
      record idle {
        state = disconnecting;
        channel = record { events = none_event; added_to_loop = true };
        output_buffer = record { buffer = 7 ∷ 8 ∷ 0 ∷ 0 ∷ []; read_index = 0; write_index = 0 };
      },
      wrote_bytes (7 ∷ 8 ∷ []) ∷ queue_in_loop write_complete_callback ∷ shutdown_write ∷ [],
    )
unfolding handle_write written shutdown_in_loop is_writing disable_writing readable_bytes peek load
    retrieve
flushes_and_shuts_down = refl

History-InOrder_example : InOrder idle (5 ∷ 6 ∷ []) (5 ∷ 6 ∷ []) idle
unfolding send_in_loop enqueue attempt is_writing readable_bytes
History-InOrder_example =
    History-InOrder idle-IsValid refl
      (History.sends (5 ∷ 6 ∷ []) (wrote 2) _ History.start (omega arith) (omega arith) refl)

abbrev life : List Event
life = establishes ∷ forces_close ∷ force_closes_in_loop ∷ force_closes_in_loop ∷ destroys ∷ []

abbrev ended : TcpConnection
ended = record {
  state = disconnected;
  channel = new_channel;
  has_write_complete = true;
  has_high_water_mark = false;
  high_water_mark = 64 * 1024 * 1024;
  conn_id = 0;
  input_buffer = new_buffer 1024;
  output_buffer = new_buffer 1024;
}

abbrev life_actions : List Action
life_actions =
    connection_callback true
    ∷ queue_in_loop force_close_in_loop_later
    ∷ connection_callback false
    ∷ close_callback
    ∷ []

life-run : run life (new_connection true) ≡ some (ended, life_actions)
unfolding run step connect_established force_close force_close_in_loop handle_close
    connect_destroyed new_connection enable_reading disable_all remove
life-run = refl

run-callbacks_example : (ups life_actions ≡ 1) × (downs life_actions + 0 ≡ 1)
run-callbacks_example = run-callbacks life true ended life_actions life-run

step-Succeeds_example : Succeeds (step forces_close blocked)
step-Succeeds_example = step-Succeeds forces_close blocked blocked-IsValid tt
