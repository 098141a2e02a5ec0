-- ===== src/RingBuffer/Append.antt =====
-- `EnsureWritableBytes`, `MakeSpace` and `Append` against the list of the readable bytes.
use chater.Common.{
  ℕ, ◌+◌, ◌-◌, ◌≤◌, ◌<◌, ◌≡◌, refl, ap, ◌∙◌, List, ◌++◌, Option, some, max_size, length, take, drop,
  arith, load_lem, store_lem, length-store, resize_lem, length-resize, replicate, length-take,
  append_assoc,
}
use Prim.Native.Nat.{max, ◌*◌}
use native.Mathlib.Decide.{dec_lt}
use chater.RingBuffer.{RingBuffer, make_space, ensure_writable_bytes, append}
use chater.RingBuffer.Invariant.{IsValid}
use chater.RingBuffer.Contents.{
  window, contents, length-contents, window-between, window-append, window-store_end,
}
use chater.RingBuffer.Operations.{Leaves}

-- The size that the vector may have after room is made for `len` bytes: its old one, or little
-- more than what is in use.
abbrev pub grown_size : RingBuffer → ℕ → ℕ
grown_size b len = max (length b.buffer) (b.write_index - b.read_index + 2 * len + 8)

-- Room for `len` more bytes at the end of the vector, reached without a change of the contents.
abbrev pub MakesRoom : RingBuffer → ℕ → Option RingBuffer → Type 0
MakesRoom b len r =
    (b' : RingBuffer) × (r ≡ some b')
    × IsValid b'
    × (contents b' ≡ contents b)
    × (b'.write_index + len ≤ length b'.buffer)
    × (length b'.buffer ≤ grown_size b len)

make_space-grow :
    (b : RingBuffer) (len : ℕ)
    → IsValid b
    → b.write_index + len ≤ max_size
    → length b.buffer - b.write_index < len
    → length b.buffer - b.write_index + b.read_index < len + 8
    → MakesRoom b len (make_space len b)
unfolding make_space
make_space-grow b len v fits short tight = (
  record b { buffer = grown },
  ground (arith, resize_lem b.buffer (b.write_index + len) 0),
  record { ordered = v.ordered; inside = omega (arith, size); small = omega (arith, size) },
  window-append b.buffer _ b.read_index (b.write_index - b.read_index) (omega arith),
  omega (arith, size),
  omega (arith, size),
)
  where
    grown : List ℕ
    grown = b.buffer ++ replicate (b.write_index + len - length b.buffer) 0

    size : length grown ≡ b.write_index + len
    size = length-resize b.buffer (b.write_index + len) 0 (omega arith)

-- The move of the readable bytes is downwards: its source starts beyond index 8.
make_space-compact :
    (b : RingBuffer) (len : ℕ)
    → IsValid b
    → b.write_index + len ≤ max_size
    → length b.buffer - b.write_index < len
    → len + 8 ≤ length b.buffer - b.write_index + b.read_index
    → MakesRoom b len (make_space len b)
unfolding make_space
make_space-compact b len v fits short loose = (
  record { buffer = moved; read_index = 8; write_index = 8 + (b.write_index - b.read_index) },
  ground (
    arith,
    load_lem b.buffer b.read_index (b.write_index - b.read_index),
    store_lem b.buffer 8 (contents b),
    size,
  ),
  record {
    ordered = omega arith;
    inside = omega (arith, length-store b.buffer 8 (contents b), size);
    small = omega (arith, length-store b.buffer 8 (contents b), size);
  },
  ap (λ t. window t 8 (8 + (b.write_index - b.read_index) - 8))
        (append_assoc (take 8 b.buffer) (contents b) _)
      ∙ window-between (take 8 b.buffer) (contents b) _ 8 _ (omega (arith, length-take 8 b.buffer))
          (omega (arith, size)),
  omega (arith, length-store b.buffer 8 (contents b), size),
  omega (arith, length-store b.buffer 8 (contents b), size),
)
  where
    size : length (contents b) ≡ b.write_index - b.read_index
    size = length-contents b v

    moved : List ℕ
    moved = take 8 b.buffer ++ contents b ++ drop (8 + length (contents b)) b.buffer

make_space-MakesRoom :
    (b : RingBuffer) (len : ℕ)
    → IsValid b
    → b.write_index + len ≤ max_size
    → length b.buffer - b.write_index < len
    → MakesRoom b len (make_space len b)
make_space-MakesRoom b len v fits short =
    elim (dec_lt (length b.buffer - b.write_index + b.read_index) (len + 8)) [
      | yes tight ↦ make_space-grow b len v fits short tight
      | no loose ↦ make_space-compact b len v fits short (omega arith)
    ]

pub ensure_writable_bytes-MakesRoom :
    (b : RingBuffer) (len : ℕ)
    → IsValid b
    → b.write_index + len ≤ max_size
    → MakesRoom b len (ensure_writable_bytes len b)
unfolding ensure_writable_bytes
ensure_writable_bytes-MakesRoom b len v fits = elim (dec_lt (length b.buffer - b.write_index) len) [
  | yes short ↦
      let (b', made, v', same, room, size) = make_space-MakesRoom b len v fits short in
      (b', ground (arith, made), v', same, room, size)
  | no enough ↦ (b, ground arith, v, refl, omega arith, omega arith)
]

-- A write of `bytes` at the end of the readable bytes.
unfoldable pub extended : RingBuffer → List ℕ → RingBuffer
extended b bytes = record {
  buffer = take b.write_index b.buffer ++ bytes ++ drop (b.write_index + length bytes) b.buffer;
  read_index = b.read_index;
  write_index = b.write_index + length bytes;
}

pub extended-IsValid :
    (b : RingBuffer) (bytes : List ℕ)
    → IsValid b
    → b.write_index + length bytes ≤ length b.buffer
    → IsValid (extended b bytes)
unfolding extended
extended-IsValid b bytes v room = omega (arith, length-store b.buffer b.write_index bytes room)

pub contents-extended :
    (b : RingBuffer) (bytes : List ℕ)
    → IsValid b
    → b.write_index + length bytes ≤ length b.buffer
    → contents (extended b bytes) ≡ contents b ++ bytes
unfolding extended
contents-extended b bytes v room =
    window-store_end b.buffer bytes b.read_index b.write_index v.ordered room

append-extended :
    (b b' : RingBuffer) (bytes : List ℕ)
    → IsValid b'
    → ensure_writable_bytes (length bytes) b ≡ some b'
    → b'.write_index + length bytes ≤ length b'.buffer
    → append bytes b ≡ some (extended b' bytes)
unfolding append extended
append-extended b b' bytes v made room = rw made (
    ground (
      arith,
      store_lem b'.buffer b'.write_index bytes room,
      length-store b'.buffer b'.write_index bytes room,
    ))

-- As `Leaves`, with a bound on the vector.
abbrev pub LeavesWithin : ℕ → List ℕ → Option RingBuffer → Type 0
LeavesWithin n bytes r =
    (b' : RingBuffer) × (r ≡ some b') × IsValid b' × (contents b' ≡ bytes) × (length b'.buffer ≤ n)

-- `Append` to a valid buffer puts the bytes behind the readable ones, whether it grows the vector,
-- moves the readable bytes down, or has room; the condition is that the vector may get that large. The
-- vector does not get larger than it was, or than the readable bytes, twice the new ones and 8.
pub append-LeavesWithin :
    (b : RingBuffer) (bytes : List ℕ)
    → IsValid b
    → b.write_index + length bytes ≤ max_size
    → LeavesWithin (grown_size b (length bytes)) (contents b ++ bytes) (append bytes b)
unfolding extended
append-LeavesWithin b bytes v fits =
    let (b', made, v', same, room, size) =
      ensure_writable_bytes-MakesRoom b (length bytes) v fits in
    (
      extended b' bytes,
      append-extended b b' bytes v' made room,
      extended-IsValid b' bytes v' room,
      contents-extended b' bytes v' room ∙ ap (λ t. t ++ bytes) same,
      omega (arith, size, length-store b'.buffer b'.write_index bytes room),
    )

pub append-Leaves :
    (b : RingBuffer) (bytes : List ℕ)
    → IsValid b
    → b.write_index + length bytes ≤ max_size
    → Leaves (contents b ++ bytes) (append bytes b)
append-Leaves b bytes v fits =
    let (b', done, v', same, _) = append-LeavesWithin b bytes v fits in (b', done, v', same)
