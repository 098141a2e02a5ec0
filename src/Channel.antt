-- ===== src/Channel.antt =====
-- HPGateway/src/net/Channel.h and Channel.cpp: the events that a descriptor waits for, and the
-- order in which a returned set of events runs the callbacks. An event set is an `int` of bits;
-- here it is a record of the bits that the code names.
pub mod Interest
mod Tests
use chater.Common.{
  ℕ, ◌≡◌, Bool, true, false, not, ◌&&◌, ◌||◌, Option, none, some, if◌then◌else◌, ◌>>=◌, ◌>>◌,
  assert,
}

pub record Events : Type 0 where
  pub in_bit : Bool
  pub pri_bit : Bool
  pub out_bit : Bool
  pub err_bit : Bool
  pub hup_bit : Bool
  pub rdhup_bit : Bool

abbrev pub none_event : Events
none_event = record {
  in_bit = false;
  pri_bit = false;
  out_bit = false;
  err_bit = false;
  hup_bit = false;
  rdhup_bit = false;
}

pub record Channel : Type 0 where
  pub events : Events
  pub added_to_loop : Bool

-- The constructor.
abbrev pub new_channel : Channel
new_channel = record { events = none_event; added_to_loop = false }

unfoldable pub is_none_event : Channel → Bool
is_none_event c = not (
    c.events.in_bit || c.events.pri_bit || c.events.out_bit || c.events.err_bit || c.events.hup_bit
    || c.events.rdhup_bit)

-- `kReadEvent` is EPOLLIN | EPOLLPRI, `kWriteEvent` is EPOLLOUT.
unfoldable pub is_reading : Channel → Bool
is_reading c = c.events.in_bit || c.events.pri_bit

unfoldable pub is_writing : Channel → Bool
is_writing c = c.events.out_bit

-- `Update`, but for the call of the loop, which `Poller.update_channel` is.
unfoldable pub update : Events → Channel → Channel
update e c = record c { events = e; added_to_loop = true }

unfoldable pub enable_reading : Channel → Channel
unfolding update
enable_reading c = let e = c.events in update (record e { in_bit = true; pri_bit = true }) c

unfoldable pub disable_reading : Channel → Channel
unfolding update
disable_reading c = let e = c.events in update (record e { in_bit = false; pri_bit = false }) c

unfoldable pub enable_writing : Channel → Channel
unfolding update
enable_writing c = let e = c.events in update (record e { out_bit = true }) c

unfoldable pub disable_writing : Channel → Channel
unfolding update
disable_writing c = let e = c.events in update (record e { out_bit = false }) c

unfoldable pub disable_all : Channel → Channel
unfolding update
disable_all c = update none_event c

unfoldable pub remove : Channel → Option Channel
unfolding is_none_event
remove c = do assert (is_none_event c); some (record c { added_to_loop = false })

-- The callbacks, `none` for one that is not set; each may change any state `S`.
pub record Callbacks (S : Type 0) : Type 0 where
  pub read_callback : Option (S → S)
  pub write_callback : Option (S → S)
  pub close_callback : Option (S → S)
  pub error_callback : Option (S → S)

module _ {S : Type 0} where
  unfoldable pub invoke : Option (S → S) → S → S
  invoke none s = s
  invoke (some f) s = f s

  unfoldable pub invoke_if : Bool → Option (S → S) → S → S
  unfolding invoke
  invoke_if true f s = invoke f s
  invoke_if false f s = s

  -- `HandleEvent`: the tests stand in this order, and each looks at `revents_` alone.
  unfoldable pub handle_event : Callbacks S → Events → S → S
  unfolding invoke_if
  handle_event cb revents s =
      let closed = invoke_if (revents.hup_bit && not revents.in_bit) cb.close_callback s in
      let failed = invoke_if revents.err_bit cb.error_callback closed in
      let was_read =
        invoke_if (revents.in_bit || revents.pri_bit || revents.rdhup_bit) cb.read_callback
          failed in
      invoke_if revents.out_bit cb.write_callback was_read
