-- ===== src/ApiClient.antt =====
-- HPGateway/src/api_cli/ApiClient.h and ApiClient.cpp: the client of the gateway on a non-blocking
-- socket. What the system calls answer are arguments; `none` of a descriptor is a negative number.
pub mod Report
pub mod Receive
pub mod Replay
pub mod Descriptors
pub mod Requests
mod Tests
use chater.Common.{
  ℕ, zero, suc, ◌+◌, ◌*◌, ◌%◌, Bool, true, false, not, Option, none, some, List, [], ◌∷◌, ◌++◌,
  ◌==◌, if◌then◌else◌, length, replicate,
}
use chater.Packet.{PacketHeader, header_length, header_bytes, u32_mod}
use chater.Packet.Commands.{
  cmd_login_req, cmd_logout_req, cmd_order_insert_req, cmd_order_cancel_req, cmd_subscribe_req,
  cmd_unsubscribe_req, cmd_heartbeat_rsp,
}
use chater.GatewayStruct.{size_of, login_request, FieldName, Value}

pub record ApiClient : Type 0 where
  pub sockfd : Option ℕ
  pub seq : ℕ
  pub recv_buf : List ℕ
  pub has_callback : Bool

unfoldable pub new_client : ApiClient
new_client = record { sockfd = none; seq = 1; recv_buf = []; has_callback = false }

unfoldable pub set_response_callback : ApiClient → ApiClient
set_response_callback c = record c { has_callback = true }

-- A line that the client prints of a body: a field, the number of symbols, or the first bytes.
pub data Line : Type 0 where
  field : FieldName × Value → Line
  subscribed : ℕ → Line
  raw : ℕ → List ℕ → Line

-- A system call, the printed packet, or a call of the callback. `writes` has the bytes that are handed
-- over and how many of them the kernel takes (`none` for an error).
pub data Effect : Type 0 where
  opens : ℕ → Effect
  closes : ℕ → Effect
  writes : ℕ → List ℕ → Option ℕ → Effect
  prints : PacketHeader → List Line → Effect
  calls_back : ℕ → ℕ → List ℕ → Effect

abbrev pub is_connected : ApiClient → Bool
is_connected c = elim c.sockfd [ none ↦ false | some fd ↦ true ]

unfoldable pub disconnect : ApiClient → ApiClient × List Effect
disconnect c = elim c.sockfd [
  | none ↦ (record c { recv_buf = [] }, [])
  | some fd ↦ (record c { sockfd = none; recv_buf = [] }, closes fd ∷ [])
]

-- The answer of `connect`, and of the `poll` and the `getsockopt` that wait for its end.
pub data Connecting : Type 0 where
  at_once : Connecting
  in_progress : (poll_ok writable : Bool) (sock_err : ℕ) → Connecting
  refused : Connecting

pub record Network : Type 0 where
  pub resolves : Bool
  pub socket : Option ℕ
  pub connecting : Connecting

unfoldable pub connects : Connecting → Bool
connects at_once = true
connects (in_progress false writable e) = false
connects (in_progress true false e) = false
connects (in_progress true true e) = e == 0
connects refused = false

-- `Connect` behind the call of `Disconnect`: its answer, the client and the calls.
unfoldable pub open_socket : Network → ApiClient → Bool × (ApiClient × List Effect)
unfolding connects
open_socket net c = if not net.resolves then (false, (c, [])) else elim net.socket [
  | none ↦ (false, (record c { sockfd = none }, []))
  | some fd ↦
      if connects net.connecting
      then (true, (record c { sockfd = some fd }, opens fd ∷ []))
      else (false, (record c { sockfd = none }, opens fd ∷ closes fd ∷ []))
]

unfoldable pub connect : Network → ApiClient → Bool × (ApiClient × List Effect)
unfolding disconnect open_socket
connect net c =
    let (c1, closing) = if is_connected c then disconnect c else (c, []) in
    let (ok, (c2, opening)) = open_socket net c1 in (ok, (c2, closing ++ opening))

-- The header that `SendRequest` writes field by field; the length is a 32-bit sum.
unfoldable pub request_header : ℕ → ℕ → List ℕ → PacketHeader
request_header cmd seq bytes = record {
  length = (header_length + length bytes % u32_mod) % u32_mod;
  cmd = cmd;
  flag = 0;
  seq = seq;
}

-- `SendRequest`: the number that it returns, the client and the `writev` of the header and the data.
-- A number of bytes short of all is no error.
unfoldable pub send_request : ℕ → List ℕ → Option ℕ → ApiClient → ℕ × (ApiClient × List Effect)
unfolding request_header
send_request cmd bytes taken c = elim c.sockfd [
  | none ↦ (0, (c, []))
  | some fd ↦ (
    (elim taken [ none ↦ 0 | some n ↦ c.seq ]),
    (
      record c { seq = (c.seq + 1) % u32_mod },
      writes fd (header_bytes (request_header cmd c.seq bytes) ++ bytes) taken ∷ [],
    ),
  )
]

unfoldable pub send_heartbeat_rsp : ℕ → Option ℕ → ApiClient → List Effect
send_heartbeat_rsp seq taken c = elim c.sockfd [
  | none ↦ []
  | some fd ↦
      writes fd
        (header_bytes
          (record { length = header_length; cmd = cmd_heartbeat_rsp; flag = 0; seq = seq }))
        taken
      ∷ []
]

-- The requests of `TradeApiDemo` and `QuoteApiDemo`, with the bytes of their structs.
pub data Request : Type 0 where
  logs_in : List ℕ → Request
  logs_out : List ℕ → Request
  inserts_order : List ℕ → Request
  cancels_order : List ℕ → Request
  queries_account : Request
  queries_position : Request
  queries_order : Request
  subscribes : List ℕ → Request
  unsubscribes : List ℕ → Request

-- The command and the body of a request; two queries send nothing.
unfoldable pub request_body : Request → Option (ℕ × List ℕ)
request_body (logs_in req) = some (cmd_login_req, req)
request_body (logs_out req) = some (cmd_logout_req, req)
request_body (inserts_order req) = some (cmd_order_insert_req, req)
request_body (cancels_order req) = some (cmd_order_cancel_req, req)
request_body queries_account = some (cmd_login_req, replicate (size_of login_request) 0)
request_body queries_position = none
request_body queries_order = none
request_body (subscribes req) = some (cmd_subscribe_req, req)
request_body (unsubscribes req) = some (cmd_unsubscribe_req, req)

unfoldable pub request : Request → Option ℕ → ApiClient → ℕ × (ApiClient × List Effect)
unfolding request_body send_request
request r taken c = elim (request_body r) [
  | none ↦ (0, (c, []))
  | some (cmd, bytes) ↦ send_request cmd bytes taken c
]
