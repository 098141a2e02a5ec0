-- ===== src/Common/Memory.antt =====
-- `size_t` arithmetic, and blocks of memory as lists: a read or a write outside the block, and an
-- `assert` that fails, are faults (`none`).
use Prim.Native.Nat.{ℕ, ◌+◌, ◌-◌, ◌%◌, ◌^◌, ◌≤◌, ◌<◌}
use mathlib.Core.Path.{◌≡◌}
use mathlib.Core.Bool.{Bool, true, false}
use mathlib.Core.List.{List, ◌++◌}
use mathlib.Core.Option.{Option, none, some}
use native.Mathlib.Omega.{arith}
use chater.Common.Tests.{leb, if◌then◌else◌}
use chater.Common.Lists.{
  length, take, drop, replicate, length-append, length-take, length-drop, length-replicate,
  take-all,
}

abbrev pub size_mod : ℕ
size_mod = 2 ^ 64

-- `size_t` addition and subtraction wrap.
abbrev pub add_size : ℕ → ℕ → ℕ
add_size a b = (a + b) % size_mod

abbrev pub sub_size : ℕ → ℕ → ℕ
sub_size a b = (a + size_mod - b) % size_mod

infixl 5 ◌>>=◌ ◌>>◌
abbrev pub ◌>>=◌ {ℓ κ} : {A : Type ℓ} {B : Type κ} → Option A → (A → Option B) → Option B
none >>= f = none
some a >>= f = f a

abbrev pub ◌>>◌ {ℓ} : {B : Type ℓ} → Option (Unit {0}) → Option B → Option B
m >> k = m >>= λ _. k

-- `assert(test)`
abbrev pub assert : Bool → Option (Unit {0})
assert true = some tt
assert false = none

-- The largest size of a `std::vector<char>`.
abbrev pub max_size : ℕ
max_size = 2 ^ 63 - 1

module _ {ℓ} {A : Type ℓ} where
  -- `n` items from index `i` on.
  unfoldable pub load : List A → ℕ → ℕ → Option (List A)
  load xs i n = if leb (i + n) (length xs) then some (take n (drop i xs)) else none

  -- `std::copy` of `ys` to index `i`.
  unfoldable pub store : List A → ℕ → List A → Option (List A)
  store xs i ys =
      if leb (i + length ys) (length xs)
      then some (take i xs ++ ys ++ drop (i + length ys) xs)
      else none

  -- `vector::resize` with new items `a`; beyond `max_size` it throws.
  unfoldable pub resize : List A → ℕ → A → Option (List A)
  resize xs n a = if leb n max_size then some (take n xs ++ replicate (n - length xs) a) else none

  pub load_lem :
      (xs : List A) (i n : ℕ) → i + n ≤ length xs → load xs i n ≡ some (take n (drop i xs))
  unfolding load
  load_lem xs i n h = ground arith

  pub store_lem :
      (xs : List A) (i : ℕ) (ys : List A)
      → i + length ys ≤ length xs
      → store xs i ys ≡ some (take i xs ++ ys ++ drop (i + length ys) xs)
  unfolding store
  store_lem xs i ys h = ground arith

  pub store-eq-none :
      (xs : List A) (i : ℕ) (ys : List A) → length xs < i + length ys → store xs i ys ≡ none
  unfolding store
  store-eq-none xs i ys h = ground arith

  pub length-store :
      (xs : List A) (i : ℕ) (ys : List A)
      → i + length ys ≤ length xs
      → length (take i xs ++ ys ++ drop (i + length ys) xs) ≡ length xs
  length-store xs i ys h = omega (
    arith,
    length-append (take i xs ++ ys) (drop (i + length ys) xs),
    length-append (take i xs) ys,
    length-take i xs,
    length-drop (i + length ys) xs,
  )

  pub resize_lem :
      (xs : List A) (n : ℕ) (a : A)
      → n ≤ max_size
      → length xs ≤ n
      → resize xs n a ≡ some (xs ++ replicate (n - length xs) a)
  unfolding resize
  resize_lem xs n a h k = ground (arith, take-all n xs k)

  pub length-resize :
      (xs : List A) (n : ℕ) (a : A) → length xs ≤ n → length (xs ++ replicate (n - length xs) a) ≡ n
  length-resize xs n a k =
      omega
        (arith, length-append xs (replicate (n - length xs) a), length-replicate (n - length xs) a)
