-- ===== src/Acceptor/Tests.antt =====
-- An acceptor with the spare descriptor 5: a client, and then a time without descriptors.
use chater.Common.{ℕ, ◌≡◌, true, Option, none, some, List, [], ◌∷◌}
use chater.Channel.{new_channel}
use chater.Acceptor.{Acceptor, Accepted, connfd, failed, run_acceptor}
use chater.Acceptor.Spare.{held, spare_of, run_acceptor-held}

abbrev ready : Acceptor
ready = record {
  accept_socket = 3;
  channel = new_channel;
  has_callback = true;
  listening = true;
  idle_fd = some 5;
}

abbrev events : List (Accepted × (Option ℕ × Option ℕ))
events = (connfd 9, (none, none)) ∷ (failed 24, (some 5, some 5)) ∷ []

run_acceptor-held_example :
    held (run_acceptor events ready).1 (5 ∷ []) ≡ some (spare_of (run_acceptor events ready).0)
run_acceptor-held_example = run_acceptor-held events ready
