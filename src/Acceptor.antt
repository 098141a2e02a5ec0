-- ===== src/Acceptor.antt =====
-- HPGateway/src/net/Acceptor.h and Acceptor.cpp: accepting connections, with a spare descriptor for the
-- time when there are no more. What the system calls answer are arguments; `none` is a negative number.
pub mod Spare
mod Tests
use chater.Common.{
  ℕ, Bool, true, false, Option, none, some, List, [], ◌∷◌, ◌++◌, ◌==◌, if◌then◌else◌, ◌>>=◌, ◌>>◌,
  assert,
}
use chater.Channel.{Channel, new_channel, enable_reading, disable_all, remove}

pub record Acceptor : Type 0 where
  pub accept_socket : ℕ
  pub channel : Channel
  pub has_callback : Bool
  pub listening : Bool
  pub idle_fd : Option ℕ

pub data Action : Type 0 where
  opens : ℕ → Action
  closes : ℕ → Action
  new_connection : ℕ → Action

-- The constructor, with the socket and what the `open` of /dev/null answers.
unfoldable pub new_acceptor : ℕ → Option ℕ → Option Acceptor
new_acceptor socket idle = do
  spare ← idle
  some (record {
    accept_socket = socket;
    channel = new_channel;
    has_callback = false;
    listening = false;
    idle_fd = some spare;
  })

unfoldable pub set_new_connection_callback : Acceptor → Acceptor
set_new_connection_callback a = record a { has_callback = true }

unfoldable pub listen : Acceptor → Acceptor
listen a = record a { listening = true; channel = enable_reading a.channel }

abbrev pub emfile : ℕ
emfile = 24

-- What `accept` answers: a descriptor or an error.
pub data Accepted : Type 0 where
  connfd : ℕ → Accepted
  failed : ℕ → Accepted

abbrev pub close_if : Option ℕ → List Action
close_if none = []
close_if (some fd) = closes fd ∷ []

abbrev pub open_if : Option ℕ → List Action
open_if none = []
open_if (some fd) = opens fd ∷ []

-- `HandleRead`. Without descriptors the spare one is given up, to accept the client and close it;
-- `again` and `spare` are what the second `accept` and the `open` answer.
unfoldable pub handle_read : Accepted → Option ℕ → Option ℕ → Acceptor → Acceptor × List Action
handle_read (connfd fd) again spare a =
    (a, opens fd ∷ (if a.has_callback then new_connection fd ∷ [] else closes fd ∷ []))
handle_read (failed errno) again spare a =
    if errno == emfile
    then (
      record a { idle_fd = spare },
      close_if a.idle_fd ++ (open_if again ++ (close_if again ++ open_if spare)),
    )
    else (a, [])

-- The destructor.
unfoldable pub close_acceptor : Acceptor → Option (List Action)
close_acceptor a = do
  channel ← remove (disable_all a.channel)
  some (close_if a.idle_fd ++ closes a.accept_socket ∷ [])

-- Readable events of the listening socket, one after the other.
unfoldable pub run_acceptor :
    List (Accepted × (Option ℕ × Option ℕ)) → Acceptor → Acceptor × List Action
unfolding handle_read
run_acceptor [] a = (a, [])
run_acceptor ((answer, (again, spare)) ∷ events) a =
    let (a1, acts) = handle_read answer again spare a in
    let (a2, more) = run_acceptor events a1 in (a2, acts ++ more)
