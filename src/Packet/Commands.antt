-- ===== src/Packet/Commands.antt =====
-- `CmdType` of HPGateway/src/protocol/Packet.h.
use chater.Common.{ℕ}

abbrev pub cmd_login_req : ℕ
cmd_login_req = 0x0001

abbrev pub cmd_login_rsp : ℕ
cmd_login_rsp = 0x0002

abbrev pub cmd_logout_req : ℕ
cmd_logout_req = 0x0003

abbrev pub cmd_logout_rsp : ℕ
cmd_logout_rsp = 0x0004

abbrev pub cmd_order_insert_req : ℕ
cmd_order_insert_req = 0x0101

abbrev pub cmd_order_insert_rsp : ℕ
cmd_order_insert_rsp = 0x0102

abbrev pub cmd_order_cancel_req : ℕ
cmd_order_cancel_req = 0x0103

abbrev pub cmd_order_cancel_rsp : ℕ
cmd_order_cancel_rsp = 0x0104

abbrev pub cmd_subscribe_req : ℕ
cmd_subscribe_req = 0x0201

abbrev pub cmd_subscribe_rsp : ℕ
cmd_subscribe_rsp = 0x0202

abbrev pub cmd_unsubscribe_req : ℕ
cmd_unsubscribe_req = 0x0203

abbrev pub cmd_unsubscribe_rsp : ℕ
cmd_unsubscribe_rsp = 0x0204

abbrev pub cmd_tick_notify : ℕ
cmd_tick_notify = 0x0301

abbrev pub cmd_order_notify : ℕ
cmd_order_notify = 0x0302

abbrev pub cmd_trade_notify : ℕ
cmd_trade_notify = 0x0303

abbrev pub cmd_heartbeat_req : ℕ
cmd_heartbeat_req = 0xF001

abbrev pub cmd_heartbeat_rsp : ℕ
cmd_heartbeat_rsp = 0xF002
