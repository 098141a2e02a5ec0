-- ===== src/RingBuffer/Invariant.antt =====
-- The representation invariant of a ring buffer, and what its counters then are.
use chater.Common.{ℕ, ◌+◌, ◌-◌, ◌≤◌, ◌≡◌, max_size, length, length-replicate, arith}
use chater.RingBuffer.{RingBuffer, new_buffer, readable_bytes, writable_bytes, prependable_bytes}

pub record IsValid (b : RingBuffer) : Type 0 where
  pub ordered : b.read_index ≤ b.write_index
  pub inside : b.write_index ≤ length b.buffer
  pub small : length b.buffer ≤ max_size

-- On a valid buffer no counter wraps.
pub readable_lem : {b : RingBuffer} → IsValid b → readable_bytes b ≡ b.write_index - b.read_index
unfolding readable_bytes
readable_lem v = omega arith

pub writable_lem : {b : RingBuffer} → IsValid b → writable_bytes b ≡ length b.buffer - b.write_index
unfolding writable_bytes
writable_lem v = omega arith

-- The three counters of a valid buffer add up to the size of the vector.
pub counters_sum :
    {b : RingBuffer}
    → IsValid b
    → prependable_bytes b + readable_bytes b + writable_bytes b ≡ length b.buffer
unfolding readable_bytes writable_bytes prependable_bytes
counters_sum v = omega arith

pub new_buffer-IsValid : (size : ℕ) → size ≤ max_size → IsValid (new_buffer size)
unfolding new_buffer
new_buffer-IsValid size h = omega (arith, length-replicate {0} {A = ℕ} size 0)
