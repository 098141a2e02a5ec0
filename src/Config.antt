-- ===== src/Config.antt =====
-- HPGateway/src/gateway/GatewayContext.h and GatewayContext.cpp: the configuration and reading it from a
-- file. A text is the list of its bytes.
pub mod Keys
pub mod Load
pub mod Trim
pub mod Settings
pub mod Numbers
pub mod RoundTrip
pub mod Ranges
mod Tests
use chater.Common.{
  ℕ, zero, suc, ◌+◌, ◌-◌, ◌*◌, ◌%◌, ◌^◌, Bool, true, false, not, ◌&&◌, ◌||◌, Option, none, some,
  List, [], ◌∷◌, ◌++◌, ltb, leb, ◌==◌, if◌then◌else◌, length, take, drop, is_empty, ◌>>=◌,
}

abbrev pub Text : Type 0
Text = List ℕ

-- An `int`.
pub data ℤ : Type 0 where
  pos : ℕ → ℤ
  negsuc : ℕ → ℤ

pub record Config : Type 0 where
  pub trade_bind_ip : Text
  pub trade_port : ℕ
  pub quote_bind_ip : Text
  pub quote_port : ℕ
  pub io_thread_num : ℤ
  pub worker_thread_num : ℤ
  pub max_connections : ℤ
  pub heartbeat_timeout : ℤ
  pub log_level : Text

-- "0.0.0.0" and "info".
abbrev pub any_ip : Text
any_ip = 48 ∷ 46 ∷ 48 ∷ 46 ∷ 48 ∷ 46 ∷ 48 ∷ []

abbrev pub info : Text
info = 105 ∷ 110 ∷ 102 ∷ 111 ∷ []

unfoldable pub default_config : Config
default_config = record {
  trade_bind_ip = any_ip;
  trade_port = 8001;
  quote_bind_ip = any_ip;
  quote_port = 8002;
  io_thread_num = pos 4;
  worker_thread_num = pos 4;
  max_connections = pos 10000;
  heartbeat_timeout = pos 60;
  log_level = info;
}

unfoldable pub is_blank : ℕ → Bool
is_blank c = (c == 32) || (c == 9)

unfoldable pub is_trailing : ℕ → Bool
unfolding is_blank
is_trailing c = is_blank c || (c == 13)

-- Where the first character stands that is no blank.
unfoldable pub start_of : Text → ℕ
unfolding is_blank
start_of [] = 0
start_of (c ∷ s) = let later = start_of s in if is_blank c then suc later else 0

-- How far the text goes without the blanks and carriage returns at its end.
unfoldable pub end_of : Text → ℕ
unfolding is_trailing
end_of [] = 0
end_of (c ∷ s) = let e = end_of s in if (e == 0) && is_trailing c then 0 else suc e

-- `Trim`
unfoldable pub trim : Text → Text
unfolding start_of end_of
trim s =
    if ltb (start_of s) (end_of s) then take (end_of s - start_of s) (drop (start_of s) s) else []

-- `find` of a character.
unfoldable pub find : ℕ → Text → Option ℕ
find c [] = none
find c (x ∷ s) =
    let later = find c s in
    if x == c then some 0 else elim later [ none ↦ none | some i ↦ some (suc i) ]

abbrev pub is_none : Option ℕ → Bool
is_none none = true
is_none (some i) = false

abbrev pub front : Text → ℕ
front [] = 0
front (c ∷ s) = c

unfoldable pub back : Text → ℕ
back [] = 0
back (c ∷ []) = c
back (c ∷ d ∷ s) = back (d ∷ s)

unfoldable pub is_space : ℕ → Bool
is_space c = (c == 32) || (leb 9 c && leb c 13)

unfoldable pub is_digit : ℕ → Bool
is_digit c = leb 48 c && leb c 57

unfoldable pub skip_spaces : Text → Text
unfolding is_space
skip_spaces [] = []
skip_spaces (c ∷ s) = let rest = skip_spaces s in if is_space c then rest else c ∷ s

unfoldable pub digits_value : ℕ → Text → ℕ
unfolding is_digit
digits_value acc [] = acc
digits_value acc (c ∷ s) =
    let rest = digits_value (acc * 10 + (c - 48)) s in if is_digit c then rest else acc

abbrev pub int_limit : ℕ
int_limit = 2 ^ 31

abbrev pub negative : ℕ → ℤ
negative zero = pos 0
negative (suc n) = negsuc n

-- The sign and the digits; beyond an `int` the result is undefined, `none`.
unfoldable pub signed_value : Text → Option ℤ
unfolding digits_value
signed_value [] = some (pos 0)
signed_value (c ∷ s) =
    let signed = digits_value 0 s in
    let plain = digits_value 0 (c ∷ s) in
    if c == 45
    then (if leb signed int_limit then some (negative signed) else none)
    else (if c == 43
        then (if ltb signed int_limit then some (pos signed) else none)
        else (if ltb plain int_limit then some (pos plain) else none))

-- `std::atoi`
unfoldable pub atoi : Text → Option ℤ
unfolding skip_spaces signed_value
atoi s = signed_value (skip_spaces s)

-- `static_cast<uint16_t>`
unfoldable pub to_uint16 : ℤ → ℕ
to_uint16 (pos n) = n % 65536
to_uint16 (negsuc n) = 65535 - n % 65536
