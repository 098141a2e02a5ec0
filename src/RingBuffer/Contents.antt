-- ===== src/RingBuffer/Contents.antt =====
-- The abstract view of a ring buffer: the readable bytes, oldest first.
use chater.Common.{
  ℕ, ◌+◌, ◌-◌, ◌≤◌, ◌≡◌, refl, ap, ◌∙◌, List, ◌++◌, length, take, drop, arith, length-append,
  length-take, length-drop, take-append_le, drop-append_le, take-append_length, drop-append_length,
  take-append_ge, drop-take, take-all, append_assoc, drop-drop,
}
use chater.RingBuffer.{RingBuffer}
use chater.RingBuffer.Invariant.{IsValid}

-- The `n` bytes from index `i` on.
abbrev pub window : List ℕ → ℕ → ℕ → List ℕ
window xs i n = take n (drop i xs)

abbrev pub contents : RingBuffer → List ℕ
contents b = window b.buffer b.read_index (b.write_index - b.read_index)

pub length-window : (xs : List ℕ) (i n : ℕ) → i + n ≤ length xs → length (window xs i n) ≡ n
length-window xs i n h = omega (arith, length-take n (drop i xs), length-drop i xs)

pub length-contents :
    (b : RingBuffer) → IsValid b → length (contents b) ≡ b.write_index - b.read_index
length-contents b v = length-window b.buffer b.read_index _ (omega arith)

-- A window is the bytes between a prefix and a rest.
pub window-between :
    (xs ys zs : List ℕ) (i n : ℕ)
    → i ≡ length xs
    → n ≡ length ys
    → window (xs ++ (ys ++ zs)) i n ≡ ys
window-between xs ys zs i n hi hn =
    ap (take n) (drop-append_length i xs (ys ++ zs) hi) ∙ take-append_length n ys zs hn

-- Bytes behind a window do not matter.
pub window-append :
    (xs ys : List ℕ) (i n : ℕ) → i + n ≤ length xs → window (xs ++ ys) i n ≡ window xs i n
window-append xs ys i n h =
    ap (take n) (drop-append_le i xs ys (omega arith))
    ∙ take-append_le n (drop i xs) ys (omega (arith, length-drop i xs))

-- The front of a window is dropped by moving its start.
pub drop-window : (xs : List ℕ) (i n k : ℕ) → drop k (window xs i n) ≡ window xs (i + k) (n - k)
drop-window xs i n k = drop-take k n (drop i xs) ∙ ap (take (n - k)) (drop-drop k i xs)

-- Writing `ys` at the end of a window makes it longer by `ys`.
pub window-store_end :
    (xs ys : List ℕ) (i w : ℕ)
    → i ≤ w
    → w + length ys ≤ length xs
    → window (take w xs ++ ys ++ drop (w + length ys) xs) i (w + length ys - i)
      ≡ window xs i (w - i) ++ ys
window-store_end xs ys i w hi hw =
    window-append (take w xs ++ ys) (drop (w + length ys) xs) i (w + length ys - i)
      (omega (arith, length-append (take w xs) ys, length-take w xs))
    ∙ ap (take (w + length ys - i))
        (drop-append_le i (take w xs) ys (omega (arith, length-take w xs)))
    ∙ take-all (w + length ys - i) (drop i (take w xs) ++ ys) (
        omega (
          arith,
          length-append (drop i (take w xs)) ys,
          length-drop i (take w xs),
          length-take w xs,
        ))
    ∙ ap (λ t. t ++ ys) (drop-take i w xs)

-- Writing `ys` just before a window puts `ys` in front of it.
pub window-store_front :
    (xs ys : List ℕ) (i n : ℕ)
    → length ys ≤ i
    → i + n ≤ length xs
    → window
        (take (i - length ys) xs ++ ys ++ drop (i - length ys + length ys) xs)
        (i - length ys)
        (length ys + n)
      ≡ ys ++ window xs i n
window-store_front xs ys i n hi hn =
    let e : i - length ys + length ys ≡ i = omega arith in
    let k : length ys + n - length ys ≡ n = omega arith in
    ap (λ t. window t (i - length ys) (length ys + n))
      (append_assoc (take (i - length ys) xs) ys (drop (i - length ys + length ys) xs))
    ∙ ap (take (length ys + n)) (
        drop-append_length (i - length ys) (take (i - length ys) xs)
          (ys ++ drop (i - length ys + length ys) xs)
          (omega (arith, length-take (i - length ys) xs)))
    ∙ take-append_ge (length ys + n) ys (drop (i - length ys + length ys) xs) (omega arith)
    ∙ rw (e, k) refl
