-- ===== src/RingBuffer/Tests.antt =====
-- Runs of the ring buffer on small inputs, and its theorems at such inputs.
use chater.Common.{◌≡◌, refl, some, none, [], ◌∷◌, arith, load, store, resize}
use chater.RingBuffer.{
  RingBuffer, retrieve, retrieve_until, retrieve_all_as_string, append, shrink, read_fd, received,
  failed, readable_bytes, read_capacity,
}
use chater.RingBuffer.Invariant.{IsValid}
use chater.RingBuffer.Operations.{shrink_overflow}
use chater.RingBuffer.Append.{LeavesWithin, grown_size, append-LeavesWithin}
use chater.RingBuffer.ReadFd.{filled_size, read_fd-LeavesWithin}

-- Ten bytes of which 3 to 6 are readable.
abbrev small : RingBuffer
small = record {
  buffer = 0 ∷ 0 ∷ 0 ∷ 7 ∷ 8 ∷ 9 ∷ 0 ∷ 0 ∷ 0 ∷ 0 ∷ [];
  read_index = 3;
  write_index = 6;
}

small-IsValid : IsValid small
small-IsValid = omega arith

append_grows :
    append (1 ∷ 2 ∷ 3 ∷ 4 ∷ 5 ∷ []) small
    ≡ some (record {
      buffer = 0 ∷ 0 ∷ 0 ∷ 7 ∷ 8 ∷ 9 ∷ 1 ∷ 2 ∷ 3 ∷ 4 ∷ 5 ∷ [];
      read_index = 3;
      write_index = 11;
    })
unfolding append store resize
append_grows = refl

abbrev late : RingBuffer
late = record {
  buffer = 0 ∷ 0 ∷ 0 ∷ 0 ∷ 0 ∷ 0 ∷ 0 ∷ 0 ∷ 0 ∷ 0 ∷ 7 ∷ 8 ∷ [];
  read_index = 10;
  write_index = 12;
}

append_moves_down :
    append (1 ∷ 2 ∷ []) late
    ≡ some (record {
      buffer = 0 ∷ 0 ∷ 0 ∷ 0 ∷ 0 ∷ 0 ∷ 0 ∷ 0 ∷ 7 ∷ 8 ∷ 1 ∷ 2 ∷ [];
      read_index = 8;
      write_index = 12;
    })
unfolding append store load
append_moves_down = refl

retrieve-some : retrieve 2 small ≡ some (record small { read_index = 5 })
unfolding retrieve
retrieve-some = refl

retrieve_too_many : retrieve 4 small ≡ none
unfolding retrieve
retrieve_too_many = refl

retrieve_until_end :
    retrieve_until 6 small ≡ some (record small { read_index = 0; write_index = 0 })
unfolding retrieve_until
retrieve_until_end = refl

retrieve_text :
    retrieve_all_as_string small
    ≡ some (7 ∷ 8 ∷ 9 ∷ [], record small { read_index = 0; write_index = 0 })
unfolding retrieve_all_as_string load
retrieve_text = refl

read_fd_error : read_fd (failed 11) small ≡ some small
unfolding read_fd
read_fd_error = refl

shrink_overflow_example : shrink 2 small ≡ none
shrink_overflow_example =
    shrink_overflow small 2 small-IsValid (unfold readable_bytes in omega arith)

append-LeavesWithin_example :
    LeavesWithin (grown_size late 2) (7 ∷ 8 ∷ 1 ∷ 2 ∷ []) (append (1 ∷ 2 ∷ []) late)
append-LeavesWithin_example = append-LeavesWithin late (1 ∷ 2 ∷ []) (omega arith) (omega arith)

read_fd-LeavesWithin_example :
    LeavesWithin
      (filled_size small)
      (7 ∷ 8 ∷ 9 ∷ 1 ∷ 2 ∷ 3 ∷ 4 ∷ 5 ∷ [])
      (read_fd (received (1 ∷ 2 ∷ 3 ∷ 4 ∷ 5 ∷ [])) small)
unfolding read_capacity
read_fd-LeavesWithin_example =
    read_fd-LeavesWithin small (1 ∷ 2 ∷ 3 ∷ 4 ∷ 5 ∷ []) small-IsValid (omega arith) (omega arith)
