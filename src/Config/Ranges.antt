-- ===== src/Config/Ranges.antt =====
-- What every file that HPGateway/src/gateway/GatewayContext.cpp reads leaves in the configuration.
use chater.Common.{
  ℕ, zero, suc, ◌≤◌, ◌<◌, ◌≡◌, sym, Bool, true, false, inl, inr, Option, none, some, List, [], ◌∷◌,
  ltb, leb, ltb→lt, leb→le, ◌==◌, if◌then◌else◌, arith, ◌>>=◌, Bool-cases, subst,
}
use chater.Common.Maps.{option-cases}
use chater.Config.{
  Text, Config, ℤ, pos, negsuc, negative, int_limit, digits_value, skip_spaces, signed_value, atoi,
  to_uint16, default_config,
}
use chater.Config.Keys.{
  Key, set_key, trade_bind_ip_key, trade_port_key, quote_bind_ip_key, quote_port_key,
  io_thread_num_key, worker_thread_num_key, max_connections_key, heartbeat_timeout_key,
  log_level_key,
}
use chater.Config.Load.{parse_line, parse_lines, lines_of, load_config}
use chater.Config.Settings.{parse_line-Sets}
use chater.Config.Numbers.{IsInt}

pub record InRange (c : Config) : Type 0 where
  pub trade_port_lt : c.trade_port < 65536
  pub quote_port_lt : c.quote_port < 65536
  pub io_thread_num_int : IsInt c.io_thread_num
  pub worker_thread_num_int : IsInt c.worker_thread_num
  pub max_connections_int : IsInt c.max_connections
  pub heartbeat_timeout_int : IsInt c.heartbeat_timeout

abbrev pub Within : Option Config → Type 0
Within none = Unit {0}
Within (some c) = InRange c

abbrev IsIntIf : Option ℤ → Type 0
IsIntIf none = Unit {0}
IsIntIf (some z) = IsInt z

negative-IsInt : (n : ℕ) → n ≤ int_limit → IsInt (negative n)
negative-IsInt zero h = omega arith
negative-IsInt (suc n) h = omega arith

minus_lem : (n : ℕ) → IsIntIf (if leb n int_limit then some (negative n) else none)
minus_lem n = elim (Bool-cases (leb n int_limit)) [
  | inl fits ↦ rw fits (negative-IsInt n (leb→le n int_limit fits))
  | inr big ↦ rw big tt
]

plus_lem : (n : ℕ) → IsIntIf (if ltb n int_limit then some (pos n) else none)
plus_lem n = elim (Bool-cases (ltb n int_limit)) [
  | inl fits ↦ rw fits (ltb→lt n int_limit fits)
  | inr big ↦ rw big tt
]

if_lem : (b : Bool) (x y : Option ℤ) → IsIntIf x → IsIntIf y → IsIntIf (if b then x else y)
if_lem true x y h k = h
if_lem false x y h k = k

signed_value-IsInt : (s : Text) → IsIntIf (signed_value s)
unfolding signed_value
signed_value-IsInt [] = omega arith
signed_value-IsInt (c ∷ s) =
    if_lem (c == 45) _ _ (minus_lem (digits_value 0 s))
      (if_lem (c == 43) _ _ (plus_lem (digits_value 0 s)) (plus_lem (digits_value 0 (c ∷ s))))

atoi-IsInt : (s : Text) → IsIntIf (atoi s)
unfolding atoi
atoi-IsInt s = signed_value-IsInt (skip_spaces s)

to_uint16-lt : (z : ℤ) → to_uint16 z < 65536
unfolding to_uint16
to_uint16-lt (pos n) = omega arith
to_uint16-lt (negsuc n) = omega arith

-- A setting with a number that is read.
with_number :
    (o : Option ℤ) (f : ℤ → Config)
    → IsIntIf o
    → ((z : ℤ) → IsInt z → InRange (f z))
    → Within (o >>= (λ z. some (f z)))
with_number none f h k = tt
with_number (some z) f h k = k z h

set_key-Within : (k : Key) (v : Text) (c : Config) → InRange c → Within (set_key k v c)
unfolding set_key
set_key-Within trade_bind_ip_key v c h = record {
  trade_port_lt = h.trade_port_lt;
  quote_port_lt = h.quote_port_lt;
  io_thread_num_int = h.io_thread_num_int;
  worker_thread_num_int = h.worker_thread_num_int;
  max_connections_int = h.max_connections_int;
  heartbeat_timeout_int = h.heartbeat_timeout_int;
}
set_key-Within trade_port_key v c h = with_number (atoi v) _ (atoi-IsInt v) (λ z i. record {
  trade_port_lt = to_uint16-lt z;
  quote_port_lt = h.quote_port_lt;
  io_thread_num_int = h.io_thread_num_int;
  worker_thread_num_int = h.worker_thread_num_int;
  max_connections_int = h.max_connections_int;
  heartbeat_timeout_int = h.heartbeat_timeout_int;
})
set_key-Within quote_bind_ip_key v c h = record {
  trade_port_lt = h.trade_port_lt;
  quote_port_lt = h.quote_port_lt;
  io_thread_num_int = h.io_thread_num_int;
  worker_thread_num_int = h.worker_thread_num_int;
  max_connections_int = h.max_connections_int;
  heartbeat_timeout_int = h.heartbeat_timeout_int;
}
set_key-Within quote_port_key v c h = with_number (atoi v) _ (atoi-IsInt v) (λ z i. record {
  trade_port_lt = h.trade_port_lt;
  quote_port_lt = to_uint16-lt z;
  io_thread_num_int = h.io_thread_num_int;
  worker_thread_num_int = h.worker_thread_num_int;
  max_connections_int = h.max_connections_int;
  heartbeat_timeout_int = h.heartbeat_timeout_int;
})
set_key-Within io_thread_num_key v c h = with_number (atoi v) _ (atoi-IsInt v) (λ z i. record {
  trade_port_lt = h.trade_port_lt;
  quote_port_lt = h.quote_port_lt;
  io_thread_num_int = i;
  worker_thread_num_int = h.worker_thread_num_int;
  max_connections_int = h.max_connections_int;
  heartbeat_timeout_int = h.heartbeat_timeout_int;
})
set_key-Within worker_thread_num_key v c h = with_number (atoi v) _ (atoi-IsInt v) (λ z i. record {
  trade_port_lt = h.trade_port_lt;
  quote_port_lt = h.quote_port_lt;
  io_thread_num_int = h.io_thread_num_int;
  worker_thread_num_int = i;
  max_connections_int = h.max_connections_int;
  heartbeat_timeout_int = h.heartbeat_timeout_int;
})
set_key-Within max_connections_key v c h = with_number (atoi v) _ (atoi-IsInt v) (λ z i. record {
  trade_port_lt = h.trade_port_lt;
  quote_port_lt = h.quote_port_lt;
  io_thread_num_int = h.io_thread_num_int;
  worker_thread_num_int = h.worker_thread_num_int;
  max_connections_int = i;
  heartbeat_timeout_int = h.heartbeat_timeout_int;
})
set_key-Within heartbeat_timeout_key v c h = with_number (atoi v) _ (atoi-IsInt v) (λ z i. record {
  trade_port_lt = h.trade_port_lt;
  quote_port_lt = h.quote_port_lt;
  io_thread_num_int = h.io_thread_num_int;
  worker_thread_num_int = h.worker_thread_num_int;
  max_connections_int = h.max_connections_int;
  heartbeat_timeout_int = i;
})
set_key-Within log_level_key v c h = record {
  trade_port_lt = h.trade_port_lt;
  quote_port_lt = h.quote_port_lt;
  io_thread_num_int = h.io_thread_num_int;
  worker_thread_num_int = h.worker_thread_num_int;
  max_connections_int = h.max_connections_int;
  heartbeat_timeout_int = h.heartbeat_timeout_int;
}

parse_line-Within : (line : Text) (c : Config) → InRange c → Within (parse_line line c)
parse_line-Within line c h = elim (parse_line-Sets line c) [
  | inl e ↦ subst Within (sym e) h
  | inr (k, v, e) ↦ subst Within (sym e) (set_key-Within k v c h)
]

parse_lines-Within : (ls : List Text) (c : Config) → InRange c → Within (parse_lines ls c)
unfolding parse_lines
parse_lines-Within [] c h = h
parse_lines-Within (l ∷ ls) c h = elim (option-cases (parse_line l c)) [
  | inl undefined ↦ rw (parse_lines, undefined) tt
  | inr (c', read) ↦
      rw (parse_lines, read)
        (parse_lines-Within ls c' (subst Within read (parse_line-Within l c h)))
]

abbrev LoadedWithin : Option (Bool × Config) → Type 0
LoadedWithin none = Unit {0}
LoadedWithin (some (ok, c)) = InRange c

loaded : (o : Option Config) → Within o → LoadedWithin (o >>= (λ c. some (true, c)))
loaded none h = tt
loaded (some c) h = h

default_config-InRange : InRange default_config
unfolding default_config
default_config-InRange = record {
  trade_port_lt = omega arith;
  quote_port_lt = omega arith;
  io_thread_num_int = omega arith;
  worker_thread_num_int = omega arith;
  max_connections_int = omega arith;
  heartbeat_timeout_int = omega arith;
}

load_config-Within : (file : Option Text) → LoadedWithin (load_config file default_config)
unfolding load_config
load_config-Within none = default_config-InRange
load_config-Within (some file) =
    loaded (parse_lines (lines_of file) default_config)
      (parse_lines-Within (lines_of file) default_config default_config-InRange)

-- Whatever a file holds, if reading it into the default configuration has a defined result, then the
-- ports are below 65536 and the other numbers are in the range of an `int`.
pub load_config-InRange :
    (file : Option Text) (ok : Bool) (c : Config)
    → load_config file default_config ≡ some (ok, c)
    → InRange c
load_config-InRange file ok c h = subst LoadedWithin h (load_config-Within file)
