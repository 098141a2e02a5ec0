-- ===== src/TcpServer/Tests.antt =====
-- A server on loop 1 with the loops 4 and 5: two clients are accepted, the first one goes.
use chater.Common.{◌≡◌, refl, true, none, some, List, [], ◌∷◌, arith}
use chater.Common.Maps.{member}
use chater.LoopPool.{get_next_loop, loop_at}
use chater.Common.Maps.{lookup, insert}
use chater.TcpConnection.{connect_established, new_connection, handle_close, connect_destroyed}
use chater.Channel.{remove, disable_all}
use chater.LoopPool.{new_loop_pool, start}
use chater.TcpServer.{
  close_connection, TcpServer, new_tcp_server, start_server, Step, accepts, closes, turns,
  run_server,
}
use chater.TcpServer.Consistent.{IsConsistent}
use chater.TcpServer.Runs.{open_at, run_server-IsConsistent, run_server-quiet}

abbrev steps : List Step
steps = accepts 9 ∷ turns 4 ∷ accepts 10 ∷ closes 1 ∷ turns 5 ∷ turns 1 ∷ turns 4 ∷ []

begun : TcpServer
unfolding new_tcp_server new_loop_pool
begun = record (new_tcp_server 0 1 true) {
  pool = record { base_loop = 1; started = true; next = 0; loops = 4 ∷ 5 ∷ [] };
  started = 1;
  listening = true;
}

run_server-IsConsistent_example :
    (s : TcpServer) × (s' : TcpServer) × (start_server (4 ∷ 5 ∷ []) (new_tcp_server 0 1 true)
      ≡ some s)
    × (run_server steps s ≡ some s')
    × IsConsistent s'
run_server-IsConsistent_example = run_server-IsConsistent 1 true (4 ∷ 5 ∷ []) steps (omega arith)

-- What is left: the first connection is dropped, the second one is open.
final : TcpServer
unfolding begun run_server
final = elim (run_server steps begun) [ none ↦ begun | some s ↦ s ]

run_server-quiet_example : member 2 final.connections ≡ open_at 2 final
unfolding begun final close_connection run_server start_server new_tcp_server new_loop_pool start
    get_next_loop loop_at lookup insert connect_established new_connection handle_close
    connect_destroyed remove disable_all
run_server-quiet_example =
    run_server-quiet 1 true (4 ∷ 5 ∷ []) steps begun final (omega arith) refl refl refl 2
