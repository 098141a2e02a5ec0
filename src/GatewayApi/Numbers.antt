-- ===== src/GatewayApi/Numbers.antt =====
-- The sequence numbers of the requests that wait for an answer.
use chater.Common.{
  ℕ, ◌+◌, ◌≤◌, ◌<◌, ◌≡◌, ◌≢◌, sym, ap, ◌∙◌, Option, none, some, List, [], ◌∷◌, ◌==◌, if◌then◌else◌,
  length, arith,
}
use chater.Common.Maps.{lookup, lookup-insert}
use chater.Packet.{u32_mod}
use chater.GatewayApi.{
  GatewayApi, new_api, next_seq, set_current_conn_id, note_request, req_login, req_logout,
  req_order_insert, req_order_cancel, req_query_account, ApiCall, logs_in, logs_out, inserts,
  cancels, queries, selects, api_call, run_api,
}

-- The number under which a request waits, if it does.
unfoldable pub pending_seq : ℕ → GatewayApi → Option ℕ
pending_seq id api = elim (lookup id api.pending_requests) [ none ↦ none | some c ↦ some c.seq ]

-- No number is used twice or has still to be given out.
pub record IsNumbered (api : GatewayApi) : Type 0 where
  pub below : (id n : ℕ) → pending_seq id api ≡ some n → n < api.seq
  pub distinct : (i j n : ℕ) → pending_seq i api ≡ some n → pending_seq j api ≡ some n → i ≡ j

pending_seq-note_request :
    (id j cmd now : ℕ) (api : GatewayApi)
    → pending_seq j (note_request id cmd now api).1
      ≡ (if id == j then some api.seq else pending_seq j api)
unfolding note_request next_seq pending_seq
pending_seq-note_request id j cmd now api = ground (
  arith,
  lookup-insert id j
      (record { conn_id = api.current_conn_id; seq = api.seq; cmd = cmd; request_time = now })
      api.pending_requests,
)

next_seq_lem : (api : GatewayApi) → api.seq + 1 < u32_mod → (next_seq api).1.seq ≡ api.seq + 1
unfolding next_seq
next_seq_lem api room = omega arith

note_request-IsNumbered :
    (id cmd now : ℕ) (api : GatewayApi)
    → IsNumbered api
    → api.seq + 1 < u32_mod
    → let api' = (note_request id cmd now api).1 in IsNumbered api' × (api'.seq ≡ api.seq + 1)
unfolding note_request
note_request-IsNumbered id cmd now api v room = (
  record {
    below = λ j n h.
        ground
          (arith, pending_seq-note_request id j cmd now api, v.below j n, h, next_seq_lem api room);
    distinct = λ i j n h k. ground (
      arith,
      pending_seq-note_request id i cmd now api,
      pending_seq-note_request id j cmd now api,
      v.below i n,
      v.below j n,
      v.distinct i j n,
      h,
      k,
    );
  },
  next_seq_lem api room,
)

-- A call keeps the numbers apart, and uses one number at most.
api_call-IsNumbered :
    (c : ApiCall) (api : GatewayApi)
    → IsNumbered api
    → api.seq + 1 < u32_mod
    → let api' = (api_call c api).0 in IsNumbered api' × (api'.seq ≤ api.seq + 1)
unfolding api_call req_login req_logout req_order_insert req_order_cancel req_query_account
    set_current_conn_id pending_seq next_seq
api_call-IsNumbered (logs_in req id now) api v room =
    let (v', n) = note_request-IsNumbered id _ now api v room in (v', omega (arith, n))
api_call-IsNumbered (logs_out req id) api v room = (
  record {
    below = λ j n h. ground (arith, v.below j n, h, next_seq_lem api room);
    distinct = v.distinct;
  },
  omega (arith, next_seq_lem api room),
)
api_call-IsNumbered (inserts req id now) api v room =
    let (v', n) = note_request-IsNumbered id _ now api v room in (v', omega (arith, n))
api_call-IsNumbered (cancels req id now) api v room =
    let (v', n) = note_request-IsNumbered id _ now api v room in (v', omega (arith, n))
api_call-IsNumbered (queries id now) api v room =
    let (v', n) = note_request-IsNumbered id _ now api v room in (v', omega (arith, n))
api_call-IsNumbered (selects id) api v room =
    (record { below = v.below; distinct = v.distinct }, omega arith)

run_api-IsNumbered :
    (cs : List ApiCall) (api : GatewayApi)
    → IsNumbered api
    → api.seq + length cs < u32_mod
    → IsNumbered (run_api cs api).0
unfolding run_api
run_api-IsNumbered [] api v room = v
run_api-IsNumbered (c ∷ cs) api v room =
    let (v', n) = api_call-IsNumbered c api v (omega arith) in
    run_api-IsNumbered cs (api_call c api).0 v' (omega (arith, n))

-- After any sequence of calls of a new interface, fewer than 2 ^ 32 - 1 of them, two different
-- requests that wait have different sequence numbers, and the numbers still to come are above both.
pub run_api-distinct :
    (cs : List ApiCall) (i j n m : ℕ)
    → 1 + length cs < u32_mod
    → i ≢ j
    → pending_seq i (run_api cs new_api).0 ≡ some n
    → pending_seq j (run_api cs new_api).0 ≡ some m
    → (n ≢ m) × (n < (run_api cs new_api).0.seq) × (m < (run_api cs new_api).0.seq)
unfolding new_api pending_seq lookup
run_api-distinct cs i j n m room differ h k =
    let v =
      run_api-IsNumbered cs new_api
        (record {
          below = λ id n h. absurd (ground arith);
          distinct = λ i j n h k. absurd (ground arith);
        })
        room in
    (λ e. differ (v.distinct i j n h (k ∙ ap some (sym e))), v.below i n h, v.below j m k)
