-- ===== src/RingBuffer.antt =====
-- HPGateway/src/base/RingBuffer.h and HPGateway/src/net/Buffer.cpp: the byte buffer of a
-- connection. Indices are `size_t`; a failed `assert` and a copy outside the vector are `none`.
pub mod Invariant
pub mod Contents
pub mod Operations
pub mod Append
pub mod ReadFd
mod Tests
use chater.Common.{
  ℕ, ◌+◌, ◌≡◌, Bool, Option, none, some, List, [], ◌++◌, ltb, leb, if◌then◌else◌, ◌==◌, length,
  take, drop, replicate, add_size, sub_size, ◌>>=◌, ◌>>◌, assert, load, store, resize, not,
}

pub record RingBuffer : Type 0 where
  pub buffer : List ℕ
  pub read_index : ℕ
  pub write_index : ℕ

abbrev pub cheap_prepend : ℕ
cheap_prepend = 8

-- The constructor; `vector(n)` is zeroed.
unfoldable pub new_buffer : ℕ → RingBuffer
new_buffer size = record { buffer = replicate size 0; read_index = 0; write_index = 0 }

unfoldable pub readable_bytes : RingBuffer → ℕ
readable_bytes b = sub_size b.write_index b.read_index

unfoldable pub writable_bytes : RingBuffer → ℕ
writable_bytes b = sub_size (length b.buffer) b.write_index

unfoldable pub prependable_bytes : RingBuffer → ℕ
prependable_bytes b = b.read_index

-- `n` bytes from `Peek()` on.
unfoldable pub peek : RingBuffer → ℕ → Option (List ℕ)
peek b n = load b.buffer b.read_index n

unfoldable pub retrieve_all : RingBuffer → RingBuffer
retrieve_all b = record b { read_index = 0; write_index = 0 }

unfoldable pub retrieve : ℕ → RingBuffer → Option RingBuffer
unfolding readable_bytes retrieve_all
retrieve len b = do
  assert (leb len (readable_bytes b))
  if ltb len (readable_bytes b)
      then some (record b { read_index = add_size b.read_index len })
      else some (retrieve_all b)

-- `end` is an index into the vector.
unfoldable pub retrieve_until : ℕ → RingBuffer → Option RingBuffer
unfolding retrieve
retrieve_until end b = do
  assert (leb b.read_index end)
  assert (leb end b.write_index)
  retrieve (sub_size end b.read_index) b

unfoldable pub retrieve_as_string : ℕ → RingBuffer → Option (List ℕ × RingBuffer)
unfolding readable_bytes peek retrieve
retrieve_as_string len b = do
  assert (leb len (readable_bytes b))
  text ← peek b len
  b' ← retrieve len b
  some (text, b')

unfoldable pub retrieve_all_as_string : RingBuffer → Option (List ℕ × RingBuffer)
unfolding readable_bytes retrieve_as_string
retrieve_all_as_string b = retrieve_as_string (readable_bytes b) b

-- The readable bytes go down to index 8 where that makes room, else the vector grows.
unfoldable pub make_space : ℕ → RingBuffer → Option RingBuffer
unfolding writable_bytes prependable_bytes readable_bytes
make_space len b =
    if ltb (add_size (writable_bytes b) (prependable_bytes b)) (add_size len cheap_prepend)
    then (do
      grown ← resize b.buffer (add_size b.write_index len) 0
      some (record b { buffer = grown }))
    else (do
      moved ← load b.buffer b.read_index (readable_bytes b)
      compacted ← store b.buffer cheap_prepend moved
      some (record {
        buffer = compacted;
        read_index = cheap_prepend;
        write_index = add_size cheap_prepend (readable_bytes b);
      }))

unfoldable pub ensure_writable_bytes : ℕ → RingBuffer → Option RingBuffer
unfolding writable_bytes make_space
ensure_writable_bytes len b = do
  b' ← if ltb (writable_bytes b) len then make_space len b else some b
  assert (leb len (writable_bytes b'))
  some b'

unfoldable pub has_written : ℕ → RingBuffer → Option RingBuffer
unfolding writable_bytes
has_written len b = do
  assert (leb len (writable_bytes b))
  some (record b { write_index = add_size b.write_index len })

unfoldable pub append : List ℕ → RingBuffer → Option RingBuffer
unfolding ensure_writable_bytes has_written
append bytes b = do
  b' ← ensure_writable_bytes (length bytes) b
  filled ← store b'.buffer b'.write_index bytes
  has_written (length bytes) (record b' { buffer = filled })

unfoldable pub unwrite : ℕ → RingBuffer → Option RingBuffer
unfolding readable_bytes
unwrite len b = do
  assert (leb len (readable_bytes b))
  some (record b { write_index = sub_size b.write_index len })

unfoldable pub prepend : List ℕ → RingBuffer → Option RingBuffer
unfolding prependable_bytes
prepend bytes b = do
  assert (leb (length bytes) (prependable_bytes b))
  filled ← store b.buffer (sub_size b.read_index (length bytes)) bytes
  some (record b { buffer = filled; read_index = sub_size b.read_index (length bytes) })

unfoldable pub shrink : ℕ → RingBuffer → Option RingBuffer
unfolding readable_bytes
shrink reserve b = do
  live ← load b.buffer b.read_index (readable_bytes b)
  fresh ← store (replicate reserve 0) 0 live
  some (record { buffer = fresh; read_index = 0; write_index = readable_bytes b })

abbrev pub extra_size : ℕ
extra_size = 65536

-- What `readv` may fill: the free part of the vector, and `extrabuf` if that part is smaller.
unfoldable pub read_capacity : RingBuffer → ℕ
unfolding writable_bytes
read_capacity b =
    if ltb (writable_bytes b) extra_size then writable_bytes b + extra_size else writable_bytes b

-- The result of `readv`: the bytes that it read (none at the end of the stream), or `errno`.
pub data ReadResult : Type 0 where
  received : List ℕ → ReadResult
  failed : ℕ → ReadResult

unfoldable pub read_fd : ReadResult → RingBuffer → Option RingBuffer
unfolding writable_bytes append
read_fd (failed errno) b = some b
read_fd (received bytes) b =
    if leb (length bytes) (writable_bytes b)
    then (do
      filled ← store b.buffer b.write_index bytes
      some (record b { buffer = filled; write_index = add_size b.write_index (length bytes) }))
    else (do
      filled ← store b.buffer b.write_index (take (writable_bytes b) bytes)
      append (drop (writable_bytes b) bytes)
          (record b { buffer = filled; write_index = length filled }))
