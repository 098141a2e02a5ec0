-- ===== src/GatewayApi/Tests.antt =====
-- Requests of the interface, and its theorem at such requests.
use chater.Common.{ℕ, ◌<◌, ◌≡◌, ◌≢◌, refl, some, List, [], ◌∷◌, arith}
use chater.Common.Maps.{lookup, insert}
use chater.GatewayApi.{
  ApiCall, logs_in, inserts, new_api, run_api, api_call, req_login, req_order_insert, note_request,
  next_seq,
}
use chater.GatewayApi.Numbers.{pending_seq, run_api-distinct}

-- Two requests under the ids 20 and 21.
abbrev two : List ApiCall
two = logs_in (97 ∷ []) 20 1000 ∷ inserts (1 ∷ 2 ∷ []) 21 1005 ∷ []

second_pending : pending_seq 21 (run_api two new_api).0 ≡ some 2
unfolding pending_seq run_api api_call req_login req_order_insert note_request next_seq new_api
    lookup insert
second_pending = refl

first_pending : pending_seq 20 (run_api two new_api).0 ≡ some 1
unfolding pending_seq run_api api_call req_login req_order_insert note_request next_seq new_api
    lookup insert
first_pending = refl

run_api-distinct_example :
    (◌≢◌ {A = ℕ} 1 2) × (1 < (run_api two new_api).0.seq) × (2 < (run_api two new_api).0.seq)
run_api-distinct_example =
    run_api-distinct two 20 21 1 2 (omega arith) (λ e. omega arith) first_pending second_pending
