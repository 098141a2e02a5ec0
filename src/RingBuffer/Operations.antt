-- ===== src/RingBuffer/Operations.antt =====
-- Each operation of the ring buffer, on a valid buffer, against the list of its readable bytes.
use chater.Common.{
  ℕ, ◌+◌, ◌-◌, ◌≤◌, ◌<◌, ◌≡◌, sym, ap, ◌∙◌, List, ◌++◌, Option, none, some, max_size, length, take,
  drop, arith, load_lem, store_lem, length-store, replicate, length-replicate, zero,
  take-append_length, store-eq-none, drop-all, take-take,
}
use native.Mathlib.Decide.{dec_lt}
use chater.RingBuffer.{
  RingBuffer, readable_bytes, prependable_bytes, peek, retrieve, unwrite, prepend, shrink,
}
use chater.RingBuffer.Invariant.{IsValid, readable_lem}
use chater.RingBuffer.Contents.{window, contents, length-contents, drop-window, window-store_front}

-- What an operation promises: it succeeds, keeps the invariant, and leaves these readable bytes.
abbrev pub Leaves : List ℕ → Option RingBuffer → Type 0
Leaves bytes r = (b' : RingBuffer) × (r ≡ some b') × IsValid b' × (contents b' ≡ bytes)

-- On a valid buffer with `n` readable bytes or more, `Peek` points at the first `n` of them.
pub peek-contents :
    (b : RingBuffer) (n : ℕ)
    → IsValid b
    → n ≤ readable_bytes b
    → peek b n ≡ some (take n (contents b))
unfolding peek readable_bytes
peek-contents b n v h =
    load_lem b.buffer b.read_index n (omega arith)
    ∙ ap some (
        sym (take-take n (b.write_index - b.read_index) (drop b.read_index b.buffer) (omega arith)))

-- `Retrieve(len)` of a valid buffer, up to all that is readable, drops the first `len` readable bytes.
pub retrieve-Leaves :
    (b : RingBuffer) (len : ℕ)
    → IsValid b
    → len ≤ readable_bytes b
    → Leaves (drop len (contents b)) (retrieve len b)
unfolding retrieve
retrieve-Leaves b len v h = elim (dec_lt len (b.write_index - b.read_index)) [
  | yes part ↦ (
    record b { read_index = b.read_index + len },
    ground arith,
    omega arith,
    ap (window b.buffer (b.read_index + len)) (omega arith)
        ∙ sym (drop-window b.buffer b.read_index (b.write_index - b.read_index) len),
  )
  | no whole ↦ (
    record b { read_index = 0; write_index = 0 },
    ground arith,
    omega arith,
    sym (drop-all len (contents b) (omega (arith, length-contents b v))),
  )
]

-- Retrieving moves the indices only.
pub retrieve_buffer :
    (b : RingBuffer) (len : ℕ) {b' : RingBuffer} → retrieve len b ≡ some b' → b'.buffer ≡ b.buffer
unfolding retrieve
retrieve_buffer b len e = ground arith

-- `Unwrite(len)` of a valid buffer, up to all that is readable, takes back the last `len` readable bytes.
pub unwrite-Leaves :
    (b : RingBuffer) (len : ℕ)
    → IsValid b
    → len ≤ readable_bytes b
    → Leaves (take (readable_bytes b - len) (contents b)) (unwrite len b)
unfolding unwrite
unwrite-Leaves b len v h = (
  record b { write_index = b.write_index - len },
  ground arith,
  omega arith,
  sym (
      ap (λ n. take n (contents b)) (ap (λ n. n - len) (readable_lem v))
      ∙ take-take _ (b.write_index - b.read_index) (drop b.read_index b.buffer) (omega arith)
      ∙ ap (window b.buffer b.read_index) (omega arith)),
)

-- With room in front of a valid buffer, `Prepend` puts the bytes in front of the readable ones.
pub prepend-Leaves :
    (b : RingBuffer) (bytes : List ℕ)
    → IsValid b
    → length bytes ≤ prependable_bytes b
    → Leaves (bytes ++ contents b) (prepend bytes b)
unfolding prepend
prepend-Leaves b bytes v h = (
  record { buffer = filled; read_index = b.read_index - length bytes; write_index = b.write_index },
  ground (arith, store_lem b.buffer (b.read_index - length bytes) bytes),
  omega (arith, length-store b.buffer (b.read_index - length bytes) bytes),
  ap (window filled (b.read_index - length bytes)) (omega arith)
      ∙ window-store_front b.buffer bytes b.read_index (b.write_index - b.read_index) h
          (omega arith),
)
  where
    filled : List ℕ
    filled =
        take (b.read_index - length bytes) b.buffer
        ++ bytes
        ++ drop (b.read_index - length bytes + length bytes) b.buffer

-- `Shrink(reserve)` of a valid buffer keeps the readable bytes if `reserve` holds them.
pub shrink-Leaves :
    (b : RingBuffer) (reserve : ℕ)
    → IsValid b
    → readable_bytes b ≤ reserve
    → reserve ≤ max_size
    → Leaves (contents b) (shrink reserve b)
unfolding shrink
shrink-Leaves b reserve v h k = (
  record { buffer = filled; read_index = 0; write_index = b.write_index - b.read_index },
  ground (
    arith,
    load_lem b.buffer b.read_index (b.write_index - b.read_index),
    store_lem (replicate reserve 0) 0 (contents b),
    length-replicate reserve zero,
    length-contents b v,
  ),
  omega (
    arith,
    length-store (replicate reserve 0) 0 (contents b),
    length-replicate {0} {A = ℕ} reserve 0,
    length-contents b v,
  ),
  take-append_length _ (contents b) _ (omega (arith, length-contents b v)),
)
  where
    filled : List ℕ
    filled = contents b ++ drop (0 + length (contents b)) (replicate reserve 0)

-- With a `reserve` below the readable bytes of a valid buffer, `Shrink` copies beyond the end of the new vector.
pub shrink_overflow :
    (b : RingBuffer) (reserve : ℕ)
    → IsValid b
    → reserve < readable_bytes b
    → shrink reserve b ≡ none
unfolding shrink
shrink_overflow b reserve v h =
    rw (readable_lem v, load_lem b.buffer b.read_index (b.write_index - b.read_index) (omega arith))
      (ground (
        arith,
        length-contents b v,
        store-eq-none (replicate reserve 0) 0 (contents b),
        length-replicate reserve zero,
        readable_lem v,
      ))
