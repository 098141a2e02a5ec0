-- ===== src/Config/Numbers.antt =====
-- Decimal numbers, and `std::atoi` as HPGateway/src/gateway/GatewayContext.cpp uses it on them.
use chater.Common.{
  ℕ, zero, suc, ◌+◌, ◌-◌, ◌*◌, ◌/◌, ◌%◌, ◌≤◌, ◌<◌, ◌≡◌, refl, ap, ◌∙◌, true, false, ◌&&◌, none,
  some, [], ◌∷◌, ◌++◌, ltb, leb, lt→ltb, le→leb, ◌==◌, if◌then◌else◌, length, arith, length-append,
  Bool-cases, inl, inr, ltb→lt,
}
use chater.Config.{
  Text, ℤ, pos, negsuc, is_blank, is_trailing, start_of, end_of, is_space, is_digit, skip_spaces,
  digits_value, int_limit, signed_value, atoi, front, find,
}
use chater.Config.Trim.{IsClean, and_false}

abbrev pub AllDigits : Text → Type 0
AllDigits [] = Unit {0}
AllDigits (c ∷ s) = ((48 ≤ c) × (c ≤ 57)) × AllDigits s

-- The digits of a number below the fuel.
unfoldable pub show : ℕ → ℕ → Text
show zero n = []
show (suc fuel) n =
    let high = show fuel (n / 10) in if ltb n 10 then (48 + n) ∷ [] else high ++ (48 + n % 10) ∷ []

AllDigits-append : (xs ys : Text) → AllDigits xs → AllDigits ys → AllDigits (xs ++ ys)
AllDigits-append [] ys h k = k
AllDigits-append (x ∷ xs) ys (h, hs) k = (h, AllDigits-append xs ys hs k)

digits_value-append :
    (acc d : ℕ) (xs : Text)
    → AllDigits xs
    → d < 10
    → digits_value acc (xs ++ (48 + d) ∷ []) ≡ digits_value acc xs * 10 + d
unfolding digits_value is_digit
digits_value-append acc d [] h k = ground arith
digits_value-append acc d (x ∷ xs) (h, hs) k =
    rw (digits_value, digit x h) (digits_value-append (acc * 10 + (x - 48)) d xs hs k)
  where
    digit : (x : ℕ) → (48 ≤ x) × (x ≤ 57) → (leb 48 x && leb x 57) ≡ true
    digit x h = ground arith

show-AllDigits : (fuel n : ℕ) → AllDigits (show fuel n)
unfolding show
show-AllDigits zero n = tt
show-AllDigits (suc fuel) n = elim (Bool-cases (ltb n 10)) [
  | inl small ↦ rw small ((omega arith, omega (arith, ltb→lt n 10 small)), tt)
  | inr big ↦ rw big (
      AllDigits-append (show fuel (n / 10)) _ (show-AllDigits fuel (n / 10))
        ((omega arith, omega arith), tt))
]

show-not_empty : (fuel n : ℕ) → 0 < length (show (suc fuel) n)
unfolding show
show-not_empty fuel n = elim (Bool-cases (ltb n 10)) [
  | inl small ↦ rw small (omega arith)
  | inr big ↦ rw big (omega (arith, length-append (show fuel (n / 10)) ((48 + n % 10) ∷ [])))
]

digits_value-show : (fuel n : ℕ) → n < fuel → digits_value 0 (show fuel n) ≡ n
unfolding show digits_value
digits_value-show zero n h = absurd (omega arith)
digits_value-show (suc fuel) n h = elim (Bool-cases (ltb n 10)) [
  | inl small ↦ rw small (digits_value-append 0 n [] tt (ltb→lt n 10 small) ∙ omega arith)
  | inr big ↦ rw big (
      digits_value-append 0 (n % 10) (show fuel (n / 10)) (show-AllDigits fuel (n / 10))
        (omega arith)
      ∙ omega (arith, digits_value-show fuel (n / 10) (ground arith)))
]

-- A number's text, with its sign.
unfoldable pub decimal : ℕ → Text
decimal n = show (suc n) n

unfoldable pub show_int : ℤ → Text
show_int (pos n) = decimal n
show_int (negsuc n) = 45 ∷ decimal (suc n)

-- What an `int` can be.
abbrev pub IsInt : ℤ → Type 0
IsInt (pos n) = n < int_limit
IsInt (negsuc n) = n < int_limit

skip_spaces-text : (c : ℕ) (s : Text) → is_space c ≡ false → skip_spaces (c ∷ s) ≡ c ∷ s
unfolding skip_spaces
skip_spaces-text c s h = rw h refl

digit_lem : (c : ℕ) → 48 ≤ c → (is_space c ≡ false) × ((c == 45) ≡ false) × ((c == 43) ≡ false)
unfolding is_space
digit_lem c h = (ground arith, ground arith, ground arith)

signed_value-digit :
    (c : ℕ) (s : Text)
    → 48 ≤ c
    → digits_value 0 (c ∷ s) < int_limit
    → signed_value (c ∷ s) ≡ some (pos (digits_value 0 (c ∷ s)))
unfolding signed_value
signed_value-digit c s h l =
    let (no_space, no_minus, no_plus) = digit_lem c h in
    rw (no_minus, no_plus, lt→ltb (digits_value 0 (c ∷ s)) int_limit l) refl

no_sign :
    (t : Text)
    → AllDigits t
    → 0 < length t
    → digits_value 0 t < int_limit
    → atoi t ≡ some (pos (digits_value 0 t))
unfolding atoi
no_sign [] h k l = absurd (omega arith)
no_sign (c ∷ s) ((h, h'), hs) k l =
    ap signed_value (skip_spaces-text c s (digit_lem c h).0) ∙ signed_value-digit c s h l

with_minus :
    (t : Text) (n : ℕ) → digits_value 0 t ≡ suc n → n < int_limit → atoi (45 ∷ t) ≡ some (negsuc n)
unfolding atoi signed_value
with_minus t n e h =
    ap signed_value (skip_spaces-text 45 t refl)
    ∙ rw (e, le→leb (suc n) int_limit (omega arith)) refl

-- `atoi` reads an `int` back from its text.
pub atoi-show_int : (z : ℤ) → IsInt z → atoi (show_int z) ≡ some z
unfolding show_int decimal
atoi-show_int (pos n) h =
    no_sign (show (suc n) n) (show-AllDigits (suc n) n) (show-not_empty n n)
      (omega (arith, digits_value-show (suc n) n (omega arith)))
    ∙ ap (λ m. some (pos m)) (digits_value-show (suc n) n (omega arith))
atoi-show_int (negsuc n) h =
    with_minus (decimal (suc n)) n (digits_value-show (suc (suc n)) (suc n) (omega arith)) h

not_trailing : (c : ℕ) → 48 ≤ c → is_trailing c ≡ false
unfolding is_trailing is_blank
not_trailing c h = ground arith

not_blank : (c : ℕ) → 45 ≤ c → is_blank c ≡ false
unfolding is_blank
not_blank c h = ground arith

ends-text : (c : ℕ) (s : Text) → is_trailing c ≡ false → end_of (c ∷ s) ≡ suc (end_of s)
unfolding end_of
ends-text c s h = rw (h, and_false (end_of s == 0)) refl

digits-end : (t : Text) → AllDigits t → end_of t ≡ length t
unfolding end_of
digits-end [] h = refl
digits-end (c ∷ s) ((h, h'), hs) = ends-text c s (not_trailing c h) ∙ ap suc (digits-end s hs)

starts-text : (c : ℕ) (s : Text) → 45 ≤ c → start_of (c ∷ s) ≡ 0
unfolding start_of
starts-text c s h = rw (not_blank c h) refl

digits-IsClean : (t : Text) → AllDigits t → 0 < length t → IsClean t
digits-IsClean [] h k = absurd (omega arith)
digits-IsClean (c ∷ s) ((h, h'), hs) k = record {
  starts = starts-text c s (omega arith);
  ends = digits-end (c ∷ s) ((h, h'), hs);
  not_empty = k;
}

pub show_int-IsClean : (z : ℤ) → IsClean (show_int z)
unfolding show_int decimal is_trailing is_blank
show_int-IsClean (pos n) =
    digits-IsClean (decimal n) (show-AllDigits (suc n) n) (show-not_empty n n)
show_int-IsClean (negsuc n) = record {
  starts = starts-text 45 (decimal (suc n)) (omega arith);
  ends =
      ends-text 45 (decimal (suc n)) refl
      ∙ ap suc (digits-end (decimal (suc n)) (show-AllDigits (suc (suc n)) (suc n)));
  not_empty = omega arith;
}

one_line : (t : Text) → AllDigits t → find 10 t ≡ none
unfolding find
one_line [] h = refl
one_line (c ∷ s) ((h, h'), hs) = rw (find, other c h, one_line s hs) refl
  where
    other : (c : ℕ) → 48 ≤ c → (c == 10) ≡ false
    other c h = ground arith

-- The text of a number has no quote in front.
pub front-show_int : (z : ℤ) → (front (show_int z) == 34) ≡ false
unfolding show_int decimal
front-show_int (pos n) = first (decimal n) (show-AllDigits (suc n) n) (show-not_empty n n)
  where
    first : (t : Text) → AllDigits t → 0 < length t → (front t == 34) ≡ false
    first [] h k = absurd (omega arith)
    first (c ∷ s) ((h, h'), hs) k = ground arith
front-show_int (negsuc n) = refl

-- A number has no line break.
pub one_line-show_int : (z : ℤ) → find 10 (show_int z) ≡ none
unfolding show_int decimal find
one_line-show_int (pos n) = one_line (decimal n) (show-AllDigits (suc n) n)
one_line-show_int (negsuc n) =
    rw (find, one_line (decimal (suc n)) (show-AllDigits (suc (suc n)) (suc n))) refl
