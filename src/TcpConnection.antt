-- ===== src/TcpConnection.antt =====
-- HPGateway/src/net/TcpConnection.h and TcpConnection.cpp. A method returns the connection after
-- it and what it did outside, in order; a failed `assert` is `none`. The results of `readv` and
-- `write` are arguments. The callbacks of the server and of the gateway are `Action`s here.
pub mod Output
pub mod Flush
pub mod Lifecycle
pub mod Calls
pub mod Total
mod Tests
use chater.Common.{
  ℕ, ◌+◌, ◌*◌, ◌≡◌, Bool, true, false, not, ◌&&◌, ◌||◌, Option, none, some, List, [], ◌∷◌, ◌++◌,
  ltb, leb, ◌==◌, if◌then◌else◌, length, take, drop, add_size, sub_size, ◌>>=◌, ◌>>◌, assert,
}
use chater.RingBuffer.{
  RingBuffer, new_buffer, readable_bytes, peek, retrieve, append, ReadResult, received, failed,
  read_fd,
}
use chater.Channel.{
  Channel, new_channel, is_writing, enable_reading, enable_writing, disable_writing, disable_all,
  remove,
}

pub data State : Type 0 where
  disconnected connecting connected disconnecting : State

pub record TcpConnection : Type 0 where
  pub state : State
  pub channel : Channel
  pub has_write_complete : Bool
  pub has_high_water_mark : Bool
  pub high_water_mark : ℕ
  pub conn_id : ℕ
  pub input_buffer : RingBuffer
  pub output_buffer : RingBuffer

-- A call that is bound to be run in the loop of the connection.
pub data Functor : Type 0 where
  send_in_loop_later : List ℕ → Functor
  shutdown_in_loop_later : Functor
  force_close_in_loop_later : Functor
  write_complete_callback : Functor
  high_water_mark_callback : ℕ → Functor

pub data Action : Type 0 where
  queue_in_loop : Functor → Action
  wrote_bytes : List ℕ → Action
  shutdown_write : Action
  -- With what `Connected()` then says.
  connection_callback : Bool → Action
  message_callback : Action
  close_callback : Action

abbrev pub Outcome : Type 0
Outcome = Option (TcpConnection × List Action)

-- The result of `write`: the number of bytes taken, or one of the errors that the code tells apart.
pub data WriteResult : Type 0 where
  wrote : ℕ → WriteResult
  would_block : WriteResult
  peer_gone : WriteResult
  other_error : WriteResult

abbrev pub is_connected : State → Bool
is_connected connected = true
is_connected disconnected = false
is_connected connecting = false
is_connected disconnecting = false

abbrev pub is_disconnected : State → Bool
is_disconnected disconnected = true
is_disconnected connected = false
is_disconnected connecting = false
is_disconnected disconnecting = false

abbrev pub is_connecting : State → Bool
is_connecting connecting = true
is_connecting disconnected = false
is_connecting connected = false
is_connecting disconnecting = false

abbrev pub is_disconnecting : State → Bool
is_disconnecting disconnecting = true
is_disconnecting disconnected = false
is_disconnecting connecting = false
is_disconnecting connected = false

-- `state_ == kConnected || state_ == kDisconnecting`
abbrev pub is_open : State → Bool
is_open s = is_connected s || is_disconnecting s

-- The constructor; 64 MiB is the default high water mark, and the server sets the callbacks.
unfoldable pub new_connection : Bool → TcpConnection
new_connection write_complete = record {
  state = connecting;
  channel = new_channel;
  has_write_complete = write_complete;
  has_high_water_mark = false;
  high_water_mark = 64 * 1024 * 1024;
  conn_id = 0;
  input_buffer = new_buffer 1024;
  output_buffer = new_buffer 1024;
}

-- The first part of `SendInLoop`: what `write` took, whether the error is fatal, what is done.
pub record Attempt : Type 0 where
  pub nwrote : ℕ
  pub fault_error : Bool
  pub actions : List Action

unfoldable pub attempt : List ℕ → WriteResult → TcpConnection → Attempt
attempt bytes (wrote n) c = record {
  nwrote = n;
  fault_error = false;
  actions =
      wrote_bytes (take n bytes)
      ∷ (if sub_size (length bytes) n == 0 && c.has_write_complete
          then queue_in_loop write_complete_callback ∷ []
          else []);
}
attempt bytes would_block c = record { nwrote = 0; fault_error = false; actions = [] }
attempt bytes peer_gone c = record { nwrote = 0; fault_error = true; actions = [] }
attempt bytes other_error c = record { nwrote = 0; fault_error = false; actions = [] }

abbrev pub no_attempt : Attempt
no_attempt = record { nwrote = 0; fault_error = false; actions = [] }

-- The callback for an output buffer that reaches the mark with these `remaining` bytes.
unfoldable pub high_water : ℕ → ℕ → TcpConnection → List Action
high_water old_len remaining c =
    if leb c.high_water_mark (add_size old_len remaining)
      && (ltb old_len c.high_water_mark && c.has_high_water_mark)
    then queue_in_loop (high_water_mark_callback (add_size old_len remaining)) ∷ []
    else []

-- The second part: what is left waits in the output buffer.
unfoldable pub enqueue : List ℕ → Attempt → TcpConnection → Outcome
enqueue bytes a c = do
  let remaining = sub_size (length bytes) a.nwrote
  let old_len = readable_bytes c.output_buffer
  assert (leb remaining (length bytes))
  if not a.fault_error && ltb 0 remaining
      then (do
        output ← append (drop a.nwrote bytes) c.output_buffer
        some (
          record c {
            output_buffer = output;
            channel = if is_writing c.channel then c.channel else enable_writing c.channel;
          },
          a.actions ++ high_water old_len remaining c,
        ))
      else some (c, a.actions)

unfoldable pub send_in_loop : List ℕ → WriteResult → TcpConnection → Outcome
send_in_loop bytes result c =
    if is_disconnected c.state
    then some (c, [])
    else enqueue bytes
        (if not (is_writing c.channel) && readable_bytes c.output_buffer == 0
          then attempt bytes result c
          else no_attempt)
        c

-- `Send(message)`: at once in the loop's thread, else as a functor of the loop.
unfoldable pub send : Bool → List ℕ → WriteResult → TcpConnection → Outcome
unfolding send_in_loop
send in_loop_thread bytes result c =
    if is_connected c.state
    then (if in_loop_thread
        then send_in_loop bytes result c
        else some (c, queue_in_loop (send_in_loop_later bytes) ∷ []))
    else some (c, [])

unfoldable pub shutdown_in_loop : TcpConnection → Outcome
shutdown_in_loop c = some (c, if is_writing c.channel then [] else shutdown_write ∷ [])

unfoldable pub shutdown : Bool → TcpConnection → Outcome
unfolding shutdown_in_loop
shutdown in_loop_thread c =
    if is_connected c.state
    then (if in_loop_thread
        then shutdown_in_loop (record c { state = disconnecting })
        else some (record c { state = disconnecting }, queue_in_loop shutdown_in_loop_later ∷ []))
    else some (c, [])

unfoldable pub force_close : TcpConnection → Outcome
force_close c =
    if is_open c.state
    then some (record c { state = disconnecting }, queue_in_loop force_close_in_loop_later ∷ [])
    else some (c, [])

unfoldable pub handle_close : TcpConnection → Outcome
handle_close c = do
  assert (is_open c.state)
  some (
    record c { state = disconnected; channel = disable_all c.channel },
    connection_callback false ∷ close_callback ∷ [],
  )

unfoldable pub force_close_in_loop : TcpConnection → Outcome
force_close_in_loop c = if is_open c.state then handle_close c else some (c, [])

unfoldable pub connect_established : TcpConnection → Outcome
connect_established c = do
  assert (is_connecting c.state)
  some (
    record c { state = connected; channel = enable_reading c.channel },
    connection_callback true ∷ [],
  )

unfoldable pub connect_destroyed : TcpConnection → Outcome
connect_destroyed c =
    if is_connected c.state
    then (do
      channel ← remove (disable_all c.channel)
      some (record c { state = disconnected; channel = channel }, connection_callback false ∷ []))
    else (do channel ← remove c.channel; some (record c { channel = channel }, []))

-- `readv` that returns nothing is the end of the stream.
unfoldable pub handle_read : ReadResult → TcpConnection → Outcome
handle_read (failed errno) c = some (c, [])
handle_read (received []) c = handle_close c
handle_read (received (x ∷ xs)) c = do
  input ← read_fd (received (x ∷ xs)) c.input_buffer
  some (record c { input_buffer = input }, message_callback ∷ [])

-- What `HandleWrite` does once `write` has taken `n` bytes, of which there is at least one.
unfoldable pub written : ℕ → List ℕ → TcpConnection → Outcome
unfolding shutdown_in_loop
written n bytes c = do
  output ← retrieve n c.output_buffer
  if readable_bytes output == 0
      then (do
        (c', acts) ←
            if is_disconnecting c.state
            then shutdown_in_loop
                (record c { output_buffer = output; channel = disable_writing c.channel })
            else some (record c { output_buffer = output; channel = disable_writing c.channel }, [])
        some (
          c',
          wrote_bytes bytes
              ∷ ((if c.has_write_complete then queue_in_loop write_complete_callback ∷ [] else [])
                  ++ acts),
        ))
      else some (record c { output_buffer = output }, wrote_bytes bytes ∷ [])

unfoldable pub handle_write : WriteResult → TcpConnection → Outcome
handle_write (wrote n) c =
    if is_writing c.channel && ltb 0 n
    then (do bytes ← peek c.output_buffer n; written n bytes c)
    else some (c, [])
handle_write _ c = some (c, [])
