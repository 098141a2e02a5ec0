-- ===== src/ApiClient/Report.antt =====
-- The part of `ApiClient::RecvPacket` (HPGateway/src/api_cli/ApiClient.cpp) that prints a body. The
-- body comes from the network, and its struct is read where it stands.
pub mod Reads
use chater.Common.{
  ℕ, zero, suc, ◌+◌, ◌*◌, ◌/◌, Bool, Option, none, some, List, [], ◌∷◌, ◌++◌, leb, ltb, ◌==◌,
  if◌then◌else◌, length, take, map, ◌>>=◌, is_empty,
}
use chater.Packet.Commands.{
  cmd_login_rsp, cmd_order_insert_rsp, cmd_order_cancel_rsp, cmd_subscribe_rsp, cmd_tick_notify,
  cmd_order_notify, cmd_trade_notify,
}
use chater.GatewayStruct.{
  FieldName, trading_day, account, balance, available, front_id, session_id, symbol, exchange,
  client_order_id, order_id, trade_id, direction, offset, price, volume, traded_volume, status,
  last_price, bid_price_1, bid_volume_1, ask_price_1, ask_volume_1, high_price, low_price,
  open_price, Struct, login_response, order_info, trade_info, subscribe_quote_request, tick_data,
  size_of, read_fields,
}
use chater.ApiClient.{Line, field, subscribed, raw}

-- What a body is printed as: fields of one struct, an array of symbols, or bytes.
pub data Shape : Type 0 where
  fields : Struct → List FieldName → Shape
  symbols : Shape
  unknown : Shape

-- The `switch` over the command.
unfoldable pub shape_of : ℕ → Shape
shape_of cmd =
    if cmd == cmd_login_rsp
    then fields login_response
        (trading_day ∷ account ∷ balance ∷ available ∷ front_id ∷ session_id ∷ [])
    else (if cmd == cmd_order_insert_rsp
        then fields order_info (
            order_id ∷ client_order_id ∷ symbol ∷ exchange ∷ direction ∷ offset ∷ price ∷ volume
            ∷ traded_volume ∷ status ∷ [])
        else (if cmd == cmd_order_cancel_rsp
            then fields order_info (order_id ∷ symbol ∷ status ∷ [])
            else (if cmd == cmd_subscribe_rsp
                then symbols
                else (if cmd == cmd_tick_notify
                    then fields tick_data (
                        symbol ∷ exchange ∷ last_price ∷ bid_price_1 ∷ bid_volume_1 ∷ ask_price_1
                        ∷ ask_volume_1 ∷ high_price ∷ low_price ∷ open_price ∷ [])
                    else (if cmd == cmd_order_notify
                        then fields order_info (order_id ∷ status ∷ traded_volume ∷ volume ∷ [])
                        else (if cmd == cmd_trade_notify
                            then fields trade_info
                                (trade_id ∷ order_id ∷ symbol ∷ price ∷ volume ∷ direction ∷ [])
                            else unknown))))))

-- The loop over `syms[i]` from `i` on, `count` times.
unfoldable pub symbol_lines : ℕ → ℕ → List ℕ → Option (List Line)
symbol_lines zero i body = some []
symbol_lines (suc count) i body = do
  first ←
      read_fields body (i * size_of subscribe_quote_request) subscribe_quote_request
        (symbol ∷ exchange ∷ [])
  others ← symbol_lines count (i + 1) body
  some (map field first ++ others)

unfoldable pub print_shape : Shape → List ℕ → Option (List Line)
unfolding symbol_lines
print_shape (fields s names) body =
    if leb (size_of s) (length body)
    then (do shown ← read_fields body 0 s names; some (map field shown))
    else some []
print_shape symbols body = do
  lines ← symbol_lines (length body / size_of subscribe_quote_request) 0 body
  some (subscribed (length body / size_of subscribe_quote_request) ∷ lines)
print_shape unknown body =
    some (raw (length body) (take (if ltb (length body) 64 then length body else 64) body) ∷ [])

-- The lines printed of a body; `none` is a read outside the body.
unfoldable pub print_body : ℕ → List ℕ → Option (List Line)
unfolding shape_of print_shape
print_body cmd body = if is_empty body then some [] else print_shape (shape_of cmd) body
