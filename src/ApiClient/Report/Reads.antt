-- ===== src/ApiClient/Report/Reads.antt =====
-- The reads of a received body by the printing code of HPGateway/src/api_cli/ApiClient.cpp.
use chater.Common.{
  ℕ, zero, suc, ◌+◌, ◌*◌, ◌/◌, ◌≤◌, ◌≡◌, refl, Bool, true, false, Option, none, some, List, [], ◌∷◌,
  ◌++◌, leb, leb→le, ◌==◌, if◌then◌else◌, length, ◌>>=◌, Bool-cases, arith, map, inl, inr,
}
use chater.Common.Maps.{is_some}
use chater.Packet.Commands.{
  cmd_login_rsp, cmd_order_insert_rsp, cmd_order_cancel_rsp, cmd_subscribe_rsp, cmd_tick_notify,
  cmd_order_notify, cmd_trade_notify,
}
use chater.GatewayStruct.{
  symbol, exchange, size_of, subscribe_quote_request, read_fields, find_field,
}
use chater.GatewayStruct.Bounds.{are_fields, read_fields-Succeeds, is_some-bind}
use chater.ApiClient.{field, subscribed}
use chater.ApiClient.Report.{
  Shape, fields, symbols, unknown, shape_of, symbol_lines, print_shape, print_body,
}

-- Every name that a shape prints is a field of its struct.
abbrev IsReadable : Shape → Type 0
IsReadable (fields s names) = are_fields names s ≡ true
IsReadable symbols = Unit {0}
IsReadable unknown = Unit {0}

either-IsReadable :
    (b : Bool) (x y : Shape) → IsReadable x → IsReadable y → IsReadable (if b then x else y)
either-IsReadable true x y h k = h
either-IsReadable false x y h k = k

shape_of-IsReadable : (cmd : ℕ) → IsReadable (shape_of cmd)
unfolding shape_of find_field
shape_of-IsReadable cmd = either-IsReadable (cmd == cmd_login_rsp) _ _ refl (
    either-IsReadable (cmd == cmd_order_insert_rsp) _ _ refl (
      either-IsReadable (cmd == cmd_order_cancel_rsp) _ _ refl (
        either-IsReadable (cmd == cmd_subscribe_rsp) _ _ tt (
          either-IsReadable (cmd == cmd_tick_notify) _ _ refl (
            either-IsReadable (cmd == cmd_order_notify) _ _ refl
              (either-IsReadable (cmd == cmd_trade_notify) _ _ refl tt))))))

symbol_lines-Succeeds :
    (count i : ℕ) (body : List ℕ)
    → (i + count) * 48 ≤ length body
    → is_some (symbol_lines count i body) ≡ true
unfolding symbol_lines find_field size_of
symbol_lines-Succeeds zero i body h = refl
symbol_lines-Succeeds (suc count) i body h =
    is_some-bind _ _ (λ a b. map field a ++ b)
      (read_fields-Succeeds body (i * 48) subscribe_quote_request (symbol ∷ exchange ∷ []) refl
        (omega arith))
      (symbol_lines-Succeeds count (i + 1) body (omega arith))

pub is_some-map :
    {A B : Type 0} (o : Option A) (f : A → B)
    → is_some o ≡ true
    → is_some (o >>= (λ a. some (f a))) ≡ true
is_some-map none f h = h
is_some-map (some a) f h = refl

print_shape-Succeeds :
    (shape : Shape) (body : List ℕ) → IsReadable shape → is_some (print_shape shape body) ≡ true
unfolding print_shape size_of
print_shape-Succeeds (fields s names) body h = elim (Bool-cases (leb (size_of s) (length body))) [
  | inl fits ↦ rw fits (
      is_some-map (read_fields body 0 s names) (map field) (
        read_fields-Succeeds body 0 s names h
          (omega (arith, leb→le (size_of s) (length body) fits))))
  | inr short ↦ rw short refl
]
print_shape-Succeeds symbols body h =
    is_some-map (symbol_lines (length body / 48) 0 body) (λ l. subscribed (length body / 48) ∷ l)
      (symbol_lines-Succeeds (length body / 48) 0 body (omega arith))
print_shape-Succeeds unknown body h = refl

-- Whatever command and body the network brings, the printing code reads only bytes of the body: each
-- struct is read only from a body that is long enough for it, and each field lies within its struct.
pub print_body-Succeeds : (cmd : ℕ) (body : List ℕ) → is_some (print_body cmd body) ≡ true
unfolding print_body
print_body-Succeeds cmd [] = refl
print_body-Succeeds cmd (x ∷ xs) =
    print_shape-Succeeds (shape_of cmd) (x ∷ xs) (shape_of-IsReadable cmd)
