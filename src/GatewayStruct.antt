-- ===== src/GatewayStruct.antt =====
-- HPGateway/include/gateway/GatewayStruct.h: the structs that travel as the bodies of packets, laid
-- out as on x86-64: a field stands at a multiple of its alignment, and a struct's size is a multiple
-- of the largest alignment in it.
pub mod Bounds
use chater.Common.{
  ℕ, zero, suc, ◌+◌, ◌-◌, ◌*◌, ◌/◌, Bool, Option, none, some, List, [], ◌∷◌, ltb, ◌==◌,
  if◌then◌else◌, load, ◌>>=◌,
}
use chater.Packet.{u32_at}

-- The lengths of the fixed character arrays.
abbrev pub account_len : ℕ
account_len = 32

abbrev pub password_len : ℕ
password_len = 64

abbrev pub symbol_len : ℕ
symbol_len = 32

abbrev pub exchange_len : ℕ
exchange_len = 16

abbrev pub order_id_len : ℕ
order_id_len = 64

-- The types of the fields; an enum is an `int`.
pub data FieldType : Type 0 where
  chars : ℕ → FieldType
  int32 : FieldType
  double64 : FieldType
  uint64 : FieldType

pub data FieldName : Type 0 where
  trading_day : FieldName
  account : FieldName
  password : FieldName
  balance : FieldName
  available : FieldName
  front_id : FieldName
  session_id : FieldName
  symbol : FieldName
  exchange : FieldName
  client_order_id : FieldName
  order_id : FieldName
  trade_id : FieldName
  direction : FieldName
  offset : FieldName
  price : FieldName
  volume : FieldName
  traded_volume : FieldName
  status : FieldName
  submit_time : FieldName
  update_time : FieldName
  trade_time : FieldName
  last_price : FieldName
  bid_price_1 : FieldName
  bid_volume_1 : FieldName
  ask_price_1 : FieldName
  ask_volume_1 : FieldName
  high_price : FieldName
  low_price : FieldName
  open_price : FieldName

-- A name's position in the list above, to tell names apart.
unfoldable pub name_number : FieldName → ℕ
name_number trading_day = 0
name_number account = 1
name_number password = 2
name_number balance = 3
name_number available = 4
name_number front_id = 5
name_number session_id = 6
name_number symbol = 7
name_number exchange = 8
name_number client_order_id = 9
name_number order_id = 10
name_number trade_id = 11
name_number direction = 12
name_number offset = 13
name_number price = 14
name_number volume = 15
name_number traded_volume = 16
name_number status = 17
name_number submit_time = 18
name_number update_time = 19
name_number trade_time = 20
name_number last_price = 21
name_number bid_price_1 = 22
name_number bid_volume_1 = 23
name_number ask_price_1 = 24
name_number ask_volume_1 = 25
name_number high_price = 26
name_number low_price = 27
name_number open_price = 28

abbrev pub Struct : Type 0
Struct = List (FieldName × FieldType)

abbrev pub login_request : Struct
login_request = (account, chars account_len) ∷ (password, chars password_len) ∷ []

abbrev pub login_response : Struct
login_response =
    (trading_day, int32)
    ∷ (account, chars account_len)
    ∷ (balance, double64)
    ∷ (available, double64)
    ∷ (front_id, int32)
    ∷ (session_id, int32)
    ∷ []

abbrev pub logout_request : Struct
logout_request = (account, chars account_len) ∷ []

abbrev pub order_request : Struct
order_request =
    (symbol, chars symbol_len)
    ∷ (exchange, chars exchange_len)
    ∷ (client_order_id, chars order_id_len)
    ∷ (direction, int32)
    ∷ (offset, int32)
    ∷ (price, double64)
    ∷ (volume, int32)
    ∷ []

abbrev pub cancel_order_request : Struct
cancel_order_request =
    (order_id, chars order_id_len)
    ∷ (symbol, chars symbol_len)
    ∷ (exchange, chars exchange_len)
    ∷ []

abbrev pub order_info : Struct
order_info =
    (order_id, chars order_id_len)
    ∷ (client_order_id, chars order_id_len)
    ∷ (symbol, chars symbol_len)
    ∷ (exchange, chars exchange_len)
    ∷ (direction, int32)
    ∷ (offset, int32)
    ∷ (price, double64)
    ∷ (volume, int32)
    ∷ (traded_volume, int32)
    ∷ (status, int32)
    ∷ (submit_time, uint64)
    ∷ (update_time, uint64)
    ∷ []

abbrev pub trade_info : Struct
trade_info =
    (trade_id, chars order_id_len)
    ∷ (order_id, chars order_id_len)
    ∷ (symbol, chars symbol_len)
    ∷ (exchange, chars exchange_len)
    ∷ (direction, int32)
    ∷ (offset, int32)
    ∷ (price, double64)
    ∷ (volume, int32)
    ∷ (trade_time, uint64)
    ∷ []

abbrev pub subscribe_quote_request : Struct
subscribe_quote_request = (symbol, chars symbol_len) ∷ (exchange, chars exchange_len) ∷ []

abbrev pub tick_data : Struct
tick_data =
    (symbol, chars symbol_len)
    ∷ (exchange, chars exchange_len)
    ∷ (last_price, double64)
    ∷ (bid_price_1, double64)
    ∷ (bid_volume_1, int32)
    ∷ (ask_price_1, double64)
    ∷ (ask_volume_1, int32)
    ∷ (high_price, double64)
    ∷ (low_price, double64)
    ∷ (open_price, double64)
    ∷ (update_time, uint64)
    ∷ []

-- `sizeof` and `alignof` of a type.
unfoldable pub size : FieldType → ℕ
size (chars n) = n
size int32 = 4
size double64 = 8
size uint64 = 8

unfoldable pub alignment : FieldType → ℕ
alignment (chars n) = 1
alignment int32 = 4
alignment double64 = 8
alignment uint64 = 8

unfoldable pub align_up : ℕ → ℕ → ℕ
align_up n a = (n + (a - 1)) / a * a

-- Where the fields end that follow the first `n` bytes.
unfoldable pub end_from : ℕ → Struct → ℕ
unfolding align_up size alignment
end_from n [] = n
end_from n ((f, t) ∷ s) = end_from (align_up n (alignment t) + size t) s

unfoldable pub struct_alignment : Struct → ℕ
unfolding alignment
struct_alignment [] = 1
struct_alignment ((f, t) ∷ s) =
    if ltb (struct_alignment s) (alignment t) then alignment t else struct_alignment s

unfoldable pub size_of : Struct → ℕ
unfolding align_up end_from struct_alignment
size_of s = align_up (end_from 0 s) (struct_alignment s)

-- The offset of a field, and its type.
unfoldable pub find_field : FieldName → ℕ → Struct → Option (ℕ × FieldType)
unfolding align_up size alignment name_number
find_field g n [] = none
find_field g n ((f, t) ∷ s) =
    let later = find_field g (align_up n (alignment t) + size t) s in
    if name_number f == name_number g then some (align_up n (alignment t), t) else later

-- What `printf` shows of a field: the characters before the first NUL, the 32 bits of an `int`, or
-- the eight bytes of a wider number.
pub data Value : Type 0 where
  text : List ℕ → Value
  number : ℕ → Value
  wide : List ℕ → Value

unfoldable pub until_nul : List ℕ → List ℕ
until_nul [] = []
until_nul (zero ∷ cs) = []
until_nul (suc c ∷ cs) = suc c ∷ until_nul cs

unfoldable pub value_of : FieldType → List ℕ → Value
unfolding until_nul u32_at
value_of (chars n) cs = text (until_nul cs)
value_of int32 cs = number (u32_at cs 0)
value_of double64 cs = wide cs
value_of uint64 cs = wide cs

-- `p->field` for a struct at index `base` of a block; `none` is a read outside the block.
unfoldable pub read_field : List ℕ → ℕ → Struct → FieldName → Option (FieldName × Value)
unfolding find_field size value_of
read_field block base s f = do
  (at, t) ← find_field f 0 s
  cs ← load block (base + at) (size t)
  some (f, value_of t cs)

unfoldable pub read_fields :
    List ℕ → ℕ → Struct → List FieldName → Option (List (FieldName × Value))
unfolding read_field
read_fields block base s [] = some []
read_fields block base s (f ∷ fs) = do
  first ← read_field block base s f
  others ← read_fields block base s fs
  some (first ∷ others)
