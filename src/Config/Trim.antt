-- ===== src/Config/Trim.antt =====
-- `Trim`, `find` and `back` of HPGateway/src/gateway/GatewayContext.cpp on texts without blanks at their
-- ends.
use chater.Common.{
  ℕ, suc, ◌-◌, ◌<◌, ◌≡◌, refl, Bool, true, false, ◌&&◌, none, some, [], ◌∷◌, ◌++◌, lt→ltb, ◌==◌,
  length, arith, length-append, take-all, Bool-cases, ==_refl, inl, inr,
}
use chater.Common.Maps.{option-cases}
use chater.Config.{Text, is_blank, start_of, end_of, trim, find, is_none, back}

pub and_false : (b : Bool) → (b && false) ≡ false
and_false true = refl
and_false false = refl

pub record IsClean (s : Text) : Type 0 where
  pub starts : start_of s ≡ 0
  pub ends : end_of s ≡ length s
  pub not_empty : 0 < length s

pub trim-clean : (s : Text) → IsClean s → trim s ≡ s
unfolding trim
trim-clean s v =
    rw (v.starts, v.ends, lt→ltb 0 (length s) v.not_empty) (take-all (length s - 0) s (omega arith))

-- One space in front, as between a colon and a value.
pub trim-space : (s : Text) → IsClean s → trim (32 ∷ s) ≡ s
unfolding trim start_of end_of is_blank
trim-space s v =
    rw (v.starts, v.ends, positive, lt→ltb 1 (suc (length s)) (omega (arith, v.not_empty)))
      (take-all (suc (length s) - 1) s (omega arith))
  where
    positive : (length s == 0) ≡ false
    positive = ground (arith, v.not_empty)

pub start_of-append : (xs ys : Text) → start_of xs ≡ 0 → 0 < length xs → start_of (xs ++ ys) ≡ 0
unfolding start_of
start_of-append [] ys h k = absurd (omega arith)
start_of-append (x ∷ xs) ys h k = elim (Bool-cases (is_blank x)) [
  | inl blank ↦ absurd (ground (arith, h, blank))
  | inr text ↦ rw text refl
]

pub end_of-append :
    (xs ys : Text) → end_of ys ≡ length ys → 0 < length ys → end_of (xs ++ ys) ≡ length (xs ++ ys)
unfolding end_of
end_of-append [] ys h k = h
end_of-append (x ∷ xs) ys h k =
    rw (end_of-append xs ys h k, not_zero (length (xs ++ ys)) (omega (arith, length-append xs ys)))
      refl
  where
    not_zero : (n : ℕ) → 0 < n → (n == 0) ≡ false
    not_zero n l = ground arith

pub append-IsClean :
    (xs ys : Text)
    → start_of xs ≡ 0
    → 0 < length xs
    → end_of ys ≡ length ys
    → 0 < length ys
    → IsClean (xs ++ ys)
append-IsClean xs ys h k l m = record {
  starts = start_of-append xs ys h k;
  ends = end_of-append xs ys l m;
  not_empty = omega (arith, length-append xs ys);
}

pub find-rest : (c x : ℕ) (xs : Text) → (x == c) ≡ false → find c (x ∷ xs) ≡ none → find c xs ≡ none
unfolding find
find-rest c x xs ne h = elim (option-cases (find c xs)) [
  | inl missing ↦ missing
  | inr (i, found) ↦ absurd (ground (arith, ne, found, h))
]

pub find-append :
    (c : ℕ) (xs ys : Text) → find c xs ≡ none → find c (xs ++ c ∷ ys) ≡ some (length xs)
unfolding find
find-append c [] ys h = ground arith
find-append c (x ∷ xs) ys h = elim (Bool-cases (x == c)) [
  | inl same ↦ absurd (ground (arith, h, same))
  | inr other ↦ rw (find, other, find-append c xs ys (find-rest c x xs other h)) refl
]

pub find-append_none :
    (c : ℕ) (xs ys : Text) → find c xs ≡ none → find c ys ≡ none → find c (xs ++ ys) ≡ none
unfolding find
find-append_none c [] ys h k = k
find-append_none c (x ∷ xs) ys h k = elim (Bool-cases (x == c)) [
  | inl same ↦ absurd (ground (arith, h, same))
  | inr other ↦ rw (find, other, find-append_none c xs ys (find-rest c x xs other h) k) refl
]

-- A character that is there is found.
pub find-there : (c : ℕ) (xs ys : Text) → is_none (find c (xs ++ c ∷ ys)) ≡ false
unfolding find
find-there c [] ys = rw (find, ==_refl c) refl
find-there c (x ∷ xs) ys = elim (Bool-cases (x == c)) [
  | inl same ↦ rw (find, same) refl
  | inr other ↦ elim (option-cases (find c (xs ++ c ∷ ys))) [
    | inl missing ↦ absurd (ground (arith, find-there c xs ys, missing))
    | inr (i, found) ↦ rw (find, other, found) refl
  ]
]

pub back-append : (xs : Text) (y : ℕ) (ys : Text) → back (xs ++ y ∷ ys) ≡ back (y ∷ ys)
unfolding back
back-append [] y ys = refl
back-append (x ∷ []) y ys = refl
back-append (x ∷ x' ∷ xs) y ys = back-append (x' ∷ xs) y ys
