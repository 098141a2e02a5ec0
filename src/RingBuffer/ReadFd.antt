-- ===== src/RingBuffer/ReadFd.antt =====
-- `ReadFd` of HPGateway/src/net/Buffer.cpp: a scattered read into the vector and `extrabuf`.
use chater.Common.{
  ℕ, ◌+◌, ◌-◌, ◌≤◌, ◌<◌, ◌≡◌, ap, ◌∙◌, List, ◌++◌, max_size, length, take, drop, arith, store_lem,
  length-store, length-take, length-drop, append_assoc, take-append-drop,
}
use Prim.Native.Nat.{max}
use native.Mathlib.Decide.{dec_lt}
use chater.RingBuffer.{RingBuffer, append, read_capacity, extra_size, received, read_fd}
use chater.RingBuffer.Invariant.{IsValid}
use chater.RingBuffer.Contents.{contents}
use chater.RingBuffer.Append.{
  extended, extended-IsValid, contents-extended, LeavesWithin, append-LeavesWithin,
}

-- What does not fit into the vector fits into `extrabuf`.
spill-le :
    (b : RingBuffer) (n : ℕ)
    → IsValid b
    → n ≤ read_capacity b
    → length b.buffer - b.write_index < n
    → n ≤ length b.buffer - b.write_index + extra_size
unfolding read_capacity
spill-le b n v h over = ground arith

-- `extrabuf` is used only where it is larger than the free part of the vector.
spill-free :
    (b : RingBuffer) (n : ℕ)
    → IsValid b
    → n ≤ read_capacity b
    → length b.buffer - b.write_index < n
    → length b.buffer - b.write_index ≤ extra_size
unfolding read_capacity
spill-free b n v h over = ground arith

-- The size that the vector may have after a read.
abbrev pub filled_size : RingBuffer → ℕ
filled_size b = max (length b.buffer) (b.write_index - b.read_index + 196616)

-- The vector is full and the rest of the bytes is appended from `extrabuf`.
spill-LeavesWithin :
    (b : RingBuffer) (front rest : List ℕ)
    → IsValid b
    → b.write_index + length front ≡ length b.buffer
    → length front ≤ extra_size
    → length rest ≤ extra_size
    → length b.buffer + extra_size ≤ max_size
    → LeavesWithin (filled_size b) (contents b ++ (front ++ rest)) (append rest (extended b front))
unfolding extended
spill-LeavesWithin b front rest v full less small k =
    let (b', done, v', same, size) =
      append-LeavesWithin (extended b front) rest (extended-IsValid b front v (omega arith))
        (omega arith) in
    (
      b',
      done,
      v',
      same
          ∙ ap (λ t. t ++ rest) (contents-extended b front v (omega arith))
          ∙ append_assoc (contents b) front rest,
      omega (arith, size, length-store b.buffer b.write_index front (omega arith)),
    )

-- `ReadFd` on a valid buffer appends what `readv` read, also where it fills the vector and `extrabuf`.
-- The conditions: `readv` reads no more than it is given room for, and the vector may still grow.
-- The vector does not get larger than it was, or than the bytes that waited in it and 196616.
pub read_fd-LeavesWithin :
    (b : RingBuffer) (bytes : List ℕ)
    → IsValid b
    → length bytes ≤ read_capacity b
    → length b.buffer + extra_size ≤ max_size
    → LeavesWithin (filled_size b) (contents b ++ bytes) (read_fd (received bytes) b)
unfolding read_fd extended
read_fd-LeavesWithin b bytes v h k = elim (dec_lt free (length bytes)) [
  | yes over ↦
      let (b', done, v', same, size) =
        spill-LeavesWithin b front rest v (omega (arith, length-take free bytes))
          (omega (arith, length-take free bytes, spill-free b (length bytes) v h over))
          (omega (arith, length-drop free bytes, spill-le b (length bytes) v h)) k in
      (
        b',
        ground (
          arith,
          store_lem b.buffer b.write_index front,
          length-take free bytes,
          length-store b.buffer b.write_index front,
          done,
        ),
        v',
        same ∙ ap (λ t. contents b ++ t) (take-append-drop free bytes),
        size,
      )
  | no within ↦ (
    extended b bytes,
    ground (arith, store_lem b.buffer b.write_index bytes),
    extended-IsValid b bytes v (omega arith),
    contents-extended b bytes v (omega arith),
    omega (arith, length-store b.buffer b.write_index bytes (omega arith)),
  )
]
  where
    free : ℕ
    free = length b.buffer - b.write_index

    front : List ℕ
    front = take free bytes

    rest : List ℕ
    rest = drop free bytes
