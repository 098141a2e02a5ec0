-- ===== src/GatewayApi.antt =====
-- HPGateway/src/gateway/GatewayApiImpl.h and GatewayApiImpl.cpp: numbering the requests and noting those
-- that wait for an answer. A request's struct is given by its bytes, and `now` is the clock in
-- milliseconds. The answer of every request method is 0.
pub mod Numbers
mod Tests
use chater.Common.{
  ℕ, ◌+◌, ◌%◌, ◌≡◌, Bool, true, false, Option, none, some, List, [], ◌∷◌, ◌++◌, if◌then◌else◌,
  length,
}
use chater.Common.Maps.{Map, lookup, insert}
use chater.Packet.{Packet, u32_mod}
use chater.Packet.Commands.{
  cmd_login_req, cmd_logout_req, cmd_order_insert_req, cmd_order_cancel_req,
}
use chater.Codec.{encode}
use chater.Server.{is_positive}

pub record RequestContext : Type 0 where
  pub conn_id : ℕ
  pub seq : ℕ
  pub cmd : ℕ
  pub request_time : ℕ

pub record GatewayApi : Type 0 where
  pub seq : ℕ
  pub current_conn_id : ℕ
  pub initialized : Bool
  pub has_spi : Bool
  pub pending_requests : Map RequestContext

-- The constructor.
unfoldable pub new_api : GatewayApi
new_api = record {
  seq = 1;
  current_conn_id = 0;
  initialized = false;
  has_spi = false;
  pending_requests = [];
}

-- A call of the application's interface, or of `SendToClient` with the address of a packet object
-- and the packet's total length.
pub data Effect : Type 0 where
  on_connected : Effect
  on_disconnected : Effect
  sends_from : ℕ → Packet → Effect

-- `NextSeq`: the number before `fetch_add`, which wraps at 32 bits.
unfoldable pub next_seq : GatewayApi → ℕ × GatewayApi
next_seq api = (api.seq, record api { seq = (api.seq + 1) % u32_mod })

unfoldable pub register_spi : GatewayApi → GatewayApi
register_spi api = record api { has_spi = true }

unfoldable pub set_current_conn_id : ℕ → GatewayApi → GatewayApi
set_current_conn_id id api = record api { current_conn_id = id }

unfoldable pub init : GatewayApi → GatewayApi × List Effect
init api = (record api { initialized = true }, if api.has_spi then on_connected ∷ [] else [])

unfoldable pub release : GatewayApi → GatewayApi × List Effect
release api = (record api { initialized = false }, if api.has_spi then on_disconnected ∷ [] else [])

-- A numbered request is noted under its id, in place of an older one with that id.
unfoldable pub note_request : ℕ → ℕ → ℕ → GatewayApi → ℕ × GatewayApi
unfolding next_seq
note_request request_id cmd now api =
    let (seq, api') = next_seq api in
    (
      seq,
      record api' {
        pending_requests =
            insert request_id
              (record { conn_id = api'.current_conn_id; seq = seq; cmd = cmd; request_time = now })
              api'.pending_requests;
      },
    )

-- What is sent to the current connection, if there is one.
unfoldable pub echo : Packet → GatewayApi → List Effect
echo packet api =
    if is_positive api.current_conn_id then sends_from api.current_conn_id packet ∷ [] else []

unfoldable pub req_login : List ℕ → ℕ → ℕ → GatewayApi → GatewayApi × List Effect
unfolding note_request echo
req_login req request_id now api =
    let (seq, api') = note_request request_id cmd_login_req now api in
    (api', echo (encode cmd_login_req seq req) api')

-- `ReqLogout` numbers its packet and notes nothing.
unfoldable pub req_logout : List ℕ → ℕ → GatewayApi → GatewayApi × List Effect
unfolding next_seq echo
req_logout req request_id api =
    let (seq, api') = next_seq api in (api', echo (encode cmd_logout_req seq req) api')

-- The packet that `ReqOrderInsert` and `ReqOrderCancel` encode goes nowhere.
unfoldable pub req_order_insert : List ℕ → ℕ → ℕ → GatewayApi → GatewayApi × List Effect
unfolding note_request
req_order_insert req request_id now api =
    ((note_request request_id cmd_order_insert_req now api).1, [])

unfoldable pub req_order_cancel : List ℕ → ℕ → ℕ → GatewayApi → GatewayApi × List Effect
unfolding note_request
req_order_cancel req request_id now api =
    ((note_request request_id cmd_order_cancel_req now api).1, [])

unfoldable pub req_query_account : ℕ → ℕ → GatewayApi → GatewayApi × List Effect
unfolding note_request
req_query_account request_id now api = ((note_request request_id 0 now api).1, [])

-- The calls that change the state.
pub data ApiCall : Type 0 where
  logs_in : List ℕ → ℕ → ℕ → ApiCall
  logs_out : List ℕ → ℕ → ApiCall
  inserts : List ℕ → ℕ → ℕ → ApiCall
  cancels : List ℕ → ℕ → ℕ → ApiCall
  queries : ℕ → ℕ → ApiCall
  selects : ℕ → ApiCall

unfoldable pub api_call : ApiCall → GatewayApi → GatewayApi × List Effect
api_call (logs_in req id now) api = req_login req id now api
api_call (logs_out req id) api = req_logout req id api
api_call (inserts req id now) api = req_order_insert req id now api
api_call (cancels req id now) api = req_order_cancel req id now api
api_call (queries id now) api = req_query_account id now api
api_call (selects id) api = (set_current_conn_id id api, [])

unfoldable pub run_api : List ApiCall → GatewayApi → GatewayApi × List Effect
run_api [] api = (api, [])
run_api (c ∷ cs) api =
    let (api', es) = api_call c api in let (api'', more) = run_api cs api' in (api'', es ++ more)
