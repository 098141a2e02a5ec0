-- ===== src/Config/RoundTrip.antt =====
-- A configuration written as a file of `key: value` lines and read back by `LoadConfig` of
-- HPGateway/src/gateway/GatewayContext.cpp.
use chater.Common.{
  ℕ, suc, ◌-◌, ◌%◌, ◌<◌, ◌≡◌, refl, ap, ◌∙◌, true, none, some, List, [], ◌∷◌, ◌++◌, leb, le→leb,
  ◌==◌, length, arith, length-append, take-append_length, Bool-cases, inl, inr,
}
use chater.Config.{
  Text, Config, ℤ, pos, find, back, atoi, to_uint16, start_of, end_of, is_blank, is_trailing,
}
use chater.Config.Keys.{
  Key, key_text, set_key, trade_bind_ip_key, trade_port_key, quote_bind_ip_key, quote_port_key,
  io_thread_num_key, worker_thread_num_key, max_connections_key, heartbeat_timeout_key,
  log_level_key,
}
use chater.Config.Load.{unquote, lines_of, parse_lines, load_config}
use chater.Config.Trim.{IsClean, and_false, end_of-append, back-append, find-append_none, find-rest}
use chater.Config.Numbers.{
  show_int, IsInt, atoi-show_int, show_int-IsClean, front-show_int, one_line-show_int,
}
use chater.Config.Settings.{setting, parse_line-setting}

abbrev pub quoted : Text → Text
quoted s = 34 ∷ (s ++ 34 ∷ [])

-- How a setting's value is written: texts in quotes, numbers in decimal.
unfoldable pub value_text : Key → Config → Text
value_text trade_bind_ip_key c = quoted c.trade_bind_ip
value_text trade_port_key c = show_int (pos c.trade_port)
value_text quote_bind_ip_key c = quoted c.quote_bind_ip
value_text quote_port_key c = show_int (pos c.quote_port)
value_text io_thread_num_key c = show_int c.io_thread_num
value_text worker_thread_num_key c = show_int c.worker_thread_num
value_text max_connections_key c = show_int c.max_connections
value_text heartbeat_timeout_key c = show_int c.heartbeat_timeout
value_text log_level_key c = quoted c.log_level

unfoldable pub printed : List Key → Config → Text
printed [] c = []
printed (k ∷ ks) c = setting k (value_text k c) ++ 10 ∷ printed ks c

abbrev pub all_keys : List Key
all_keys =
    trade_bind_ip_key ∷ trade_port_key ∷ quote_bind_ip_key ∷ quote_port_key ∷ io_thread_num_key
    ∷ worker_thread_num_key ∷ max_connections_key ∷ heartbeat_timeout_key ∷ log_level_key ∷ []

-- One setting of a configuration put into another.
unfoldable pub copy : Key → Config → Config → Config
copy trade_bind_ip_key c d = record d { trade_bind_ip = c.trade_bind_ip }
copy trade_port_key c d = record d { trade_port = c.trade_port }
copy quote_bind_ip_key c d = record d { quote_bind_ip = c.quote_bind_ip }
copy quote_port_key c d = record d { quote_port = c.quote_port }
copy io_thread_num_key c d = record d { io_thread_num = c.io_thread_num }
copy worker_thread_num_key c d = record d { worker_thread_num = c.worker_thread_num }
copy max_connections_key c d = record d { max_connections = c.max_connections }
copy heartbeat_timeout_key c d = record d { heartbeat_timeout = c.heartbeat_timeout }
copy log_level_key c d = record d { log_level = c.log_level }

unfoldable pub copies : List Key → Config → Config → Config
copies [] c d = d
copies (k ∷ ks) c d = copies ks c (copy k c d)

-- The fields hold what their types can hold, and the texts are on one line.
pub record IsPrintable (c : Config) : Type 0 where
  pub trade_bind_ip_line : find 10 c.trade_bind_ip ≡ none
  pub trade_port_lt : c.trade_port < 65536
  pub quote_bind_ip_line : find 10 c.quote_bind_ip ≡ none
  pub quote_port_lt : c.quote_port < 65536
  pub io_thread_num_int : IsInt c.io_thread_num
  pub worker_thread_num_int : IsInt c.worker_thread_num
  pub max_connections_int : IsInt c.max_connections
  pub heartbeat_timeout_int : IsInt c.heartbeat_timeout
  pub log_level_line : find 10 c.log_level ≡ none

unquote-quoted : (s : Text) → unquote (quoted s) ≡ s
unfolding unquote back
unquote-quoted s =
    rw
      (
        le→leb 2 (suc (length (s ++ 34 ∷ []))) (omega (arith, length-append s (34 ∷ []))),
        back-append (34 ∷ s) 34 [],
      )
      (take-append_length (suc (length (s ++ 34 ∷ [])) - 2) s (34 ∷ [])
        (omega (arith, length-append s (34 ∷ []))))

quoted-IsClean : (s : Text) → IsClean (quoted s)
unfolding start_of is_blank end_of is_trailing
quoted-IsClean s = record {
  starts = refl;
  ends = end_of-append (34 ∷ s) (34 ∷ []) refl (omega arith);
  not_empty = omega arith;
}

unquote-show_int : (z : ℤ) → unquote (show_int z) ≡ show_int z
unfolding unquote
unquote-show_int z = rw (front-show_int z, and_false (leb 2 (length (show_int z)))) refl

value_text-IsClean : (k : Key) (c : Config) → IsClean (value_text k c)
unfolding value_text
value_text-IsClean trade_bind_ip_key c = quoted-IsClean c.trade_bind_ip
value_text-IsClean trade_port_key c = show_int-IsClean (pos c.trade_port)
value_text-IsClean quote_bind_ip_key c = quoted-IsClean c.quote_bind_ip
value_text-IsClean quote_port_key c = show_int-IsClean (pos c.quote_port)
value_text-IsClean io_thread_num_key c = show_int-IsClean c.io_thread_num
value_text-IsClean worker_thread_num_key c = show_int-IsClean c.worker_thread_num
value_text-IsClean max_connections_key c = show_int-IsClean c.max_connections
value_text-IsClean heartbeat_timeout_key c = show_int-IsClean c.heartbeat_timeout
value_text-IsClean log_level_key c = quoted-IsClean c.log_level

port_lem :
    (n : ℕ) → n < 65536 → (atoi (unquote (show_int (pos n))) ≡ some (pos n)) × (n % 65536 ≡ n)
port_lem n h =
    (ap atoi (unquote-show_int (pos n)) ∙ atoi-show_int (pos n) (omega arith), omega arith)

int_lem : (z : ℤ) → IsInt z → atoi (unquote (show_int z)) ≡ some z
int_lem z h = ap atoi (unquote-show_int z) ∙ atoi-show_int z h

set_key-copy :
    (k : Key) (c d : Config)
    → IsPrintable c
    → set_key k (unquote (value_text k c)) d ≡ some (copy k c d)
unfolding set_key value_text copy to_uint16
set_key-copy trade_bind_ip_key c d h = rw (unquote-quoted c.trade_bind_ip) refl
set_key-copy trade_port_key c d h =
    rw (port_lem c.trade_port h.trade_port_lt).0
      (ap (λ n. some (record d { trade_port = n })) (port_lem c.trade_port h.trade_port_lt).1)
set_key-copy quote_bind_ip_key c d h = rw (unquote-quoted c.quote_bind_ip) refl
set_key-copy quote_port_key c d h =
    rw (port_lem c.quote_port h.quote_port_lt).0
      (ap (λ n. some (record d { quote_port = n })) (port_lem c.quote_port h.quote_port_lt).1)
set_key-copy io_thread_num_key c d h = rw (int_lem c.io_thread_num h.io_thread_num_int) refl
set_key-copy worker_thread_num_key c d h =
    rw (int_lem c.worker_thread_num h.worker_thread_num_int) refl
set_key-copy max_connections_key c d h = rw (int_lem c.max_connections h.max_connections_int) refl
set_key-copy heartbeat_timeout_key c d h =
    rw (int_lem c.heartbeat_timeout h.heartbeat_timeout_int) refl
set_key-copy log_level_key c d h = rw (unquote-quoted c.log_level) refl

quoted-one_line : (s : Text) → find 10 s ≡ none → find 10 (quoted s) ≡ none
unfolding find
quoted-one_line s h = rw (find, find-append_none 10 s (34 ∷ []) h refl) refl

value_text-one_line : (k : Key) (c : Config) → IsPrintable c → find 10 (value_text k c) ≡ none
unfolding value_text
value_text-one_line trade_bind_ip_key c h = quoted-one_line c.trade_bind_ip h.trade_bind_ip_line
value_text-one_line trade_port_key c h = one_line-show_int (pos c.trade_port)
value_text-one_line quote_bind_ip_key c h = quoted-one_line c.quote_bind_ip h.quote_bind_ip_line
value_text-one_line quote_port_key c h = one_line-show_int (pos c.quote_port)
value_text-one_line io_thread_num_key c h = one_line-show_int c.io_thread_num
value_text-one_line worker_thread_num_key c h = one_line-show_int c.worker_thread_num
value_text-one_line max_connections_key c h = one_line-show_int c.max_connections
value_text-one_line heartbeat_timeout_key c h = one_line-show_int c.heartbeat_timeout
value_text-one_line log_level_key c h = quoted-one_line c.log_level h.log_level_line

name-one_line : (k : Key) → find 10 (key_text k) ≡ none
unfolding find key_text
name-one_line trade_bind_ip_key = refl
name-one_line trade_port_key = refl
name-one_line quote_bind_ip_key = refl
name-one_line quote_port_key = refl
name-one_line io_thread_num_key = refl
name-one_line worker_thread_num_key = refl
name-one_line max_connections_key = refl
name-one_line heartbeat_timeout_key = refl
name-one_line log_level_key = refl

lines_of-line : (l rest : Text) → find 10 l ≡ none → lines_of (l ++ 10 ∷ rest) ≡ l ∷ lines_of rest
unfolding lines_of find
lines_of-line [] rest h = refl
lines_of-line (c ∷ l) rest h = elim (Bool-cases (c == 10)) [
  | inl same ↦ absurd (ground (arith, h, same))
  | inr other ↦ rw (lines_of, other, lines_of-line l rest (find-rest 10 c l other h)) refl
]

setting-one_line :
    (k : Key) (c : Config) → IsPrintable c → find 10 (setting k (value_text k c)) ≡ none
unfolding find
setting-one_line k c h =
    find-append_none 10 (key_text k) (58 ∷ 32 ∷ value_text k c) (name-one_line k)
      (rw (find, value_text-one_line k c h) refl)

printed-copies :
    (ks : List Key) (c d : Config)
    → IsPrintable c
    → parse_lines (lines_of (printed ks c)) d ≡ some (copies ks c d)
unfolding printed copies parse_lines lines_of
printed-copies [] c d h = refl
printed-copies (k ∷ ks) c d h =
    rw
      (
        lines_of-line (setting k (value_text k c)) (printed ks c) (setting-one_line k c h),
        parse_lines,
        parse_line-setting k (value_text k c) d (value_text-IsClean k c),
        set_key-copy k c d h,
      )
      (printed-copies ks c (copy k c d) h)

-- A configuration that is written with one line `key: value` for each setting, texts in quotes and
-- numbers in decimal, is read back by `LoadConfig` exactly, whatever it held before; its ports are below
-- 65536, its numbers are in the range of an `int`, and no text has a line break.
pub load_config-printed :
    (c d : Config) → IsPrintable c → load_config (some (printed all_keys c)) d ≡ some (true, c)
unfolding load_config copies copy
load_config-printed c d h = rw (printed-copies all_keys c d h) refl
