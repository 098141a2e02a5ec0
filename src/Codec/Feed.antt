-- ===== src/Codec/Feed.antt =====
-- The input side of a connection as the event loop drives it: `HandleRead` of
-- HPGateway/src/net/TcpConnection.cpp reads once for each event and calls `Codec::OnMessage`.
use chater.Common.{
  ℕ, ◌≤◌, ◌<◌, ◌≡◌, refl, sym, ap, ◌∙◌, Bool, false, ◌||◌, Option, none, some, List, [], ◌∷◌, ◌++◌,
  length, take, drop, arith, length-append, length-take, append_assoc, take-append-drop, append-nil,
  subst,
}
use chater.RingBuffer.{RingBuffer, received, read_fd, read_capacity}
use chater.RingBuffer.Invariant.{IsValid}
use chater.RingBuffer.Contents.{contents, length-contents}
use chater.RingBuffer.ReadFd.{read_fd-LeavesWithin}
use chater.Packet.{Packet}
use chater.Codec.{Received, finished, faulted, exhausted, on_message, max_packet}
use chater.Codec.Framing.{length-packet_bytes}
use chater.Codec.Stream.{stream, AllFrames, IsPartial, on_message-Cuts}

pub record Fed : Type 0 where
  pub packets : List Packet
  pub force_closed : Bool
  pub left : RingBuffer
  pub unread : List ℕ

pub resume : Received → Option Fed → Option Fed
resume r none = none
resume r (some f) = some (record {
  packets = r.packets ++ f.packets;
  force_closed = r.force_closed || f.force_closed;
  left = f.left;
  unread = f.unread;
})

-- For each event: what arrived is behind what the socket holds unread, one `readv` takes what it
-- has room for, and the loop of the codec runs. `none` is a fault or a loop that does not end.
unfoldable pub feed : ℕ → List ℕ → List (List ℕ) → RingBuffer → Option Fed
unfolding resume
feed fuel queue [] b =
    some (record { packets = []; force_closed = false; left = b; unread = queue })
feed fuel queue (arrived ∷ others) b =
    elim (read_fd (received (take (read_capacity b) (queue ++ arrived))) b) [
      | none ↦ none
      | some b1 ↦ elim (on_message fuel b1) [
        | finished r ↦
            resume r (feed fuel (drop (read_capacity b) (queue ++ arrived)) others r.left)
        | faulted ↦ none
        | exhausted ↦ none
      ]
    ]

abbrev pub join : List (List ℕ) → List ℕ
join [] = []
join (xs ∷ xss) = xs ++ join xss

-- The size that the vector of an input buffer never exceeds.
abbrev pub input_limit : ℕ
input_limit = 262152

-- What holds of an input buffer between two events: it holds part of one packet at most.
pub record Between (b : RingBuffer) (later : List ℕ) (ps : List Packet) : Type 0 where
  pub valid : IsValid b
  pub frames : AllFrames ps
  pub ahead : contents b ++ later ≡ stream ps
  pub partial : IsPartial (contents b) ps
  pub limit : length b.buffer ≤ input_limit

partial-lt :
    (xs : List ℕ) (ps : List Packet) → AllFrames ps → IsPartial xs ps → length xs ≤ max_packet
partial-lt xs [] fs e = omega (arith, ap length e)
partial-lt xs (p ∷ ps) fs h = omega (arith, length-packet_bytes p fs.0, fs.0.bounded)

AllFrames-back : (qs rs : List Packet) → AllFrames (qs ++ rs) → AllFrames rs
AllFrames-back [] rs fs = fs
AllFrames-back (q ∷ qs) rs fs = AllFrames-back qs rs fs.1

abbrev pub Feeds : List ℕ → List Packet → Option Fed → Type 0
Feeds later ps r =
    (f : Fed) × (r ≡ some f)
    × (f.force_closed ≡ false)
    × (rs : List Packet) × (ps ≡ f.packets ++ rs)
    × Between f.left (f.unread ++ later) rs

feed_step :
    (b : RingBuffer) (bytes later : List ℕ) (ps : List Packet) (fuel : ℕ)
    → Between b (bytes ++ later) ps
    → length bytes ≤ read_capacity b
    → length ps < fuel
    → (b1 : RingBuffer) × (r : Received) × (rs : List Packet) × (read_fd (received bytes) b
        ≡ some b1)
      × (on_message fuel b1 ≡ finished r)
      × (r.force_closed ≡ false)
      × (ps ≡ r.packets ++ rs)
      × Between r.left later rs
feed_step b bytes later ps fuel i h hf =
    let (b1, read, v1, same, size) =
      read_fd-LeavesWithin b bytes i.valid h (omega (arith, i.limit)) in
    let (qs, rs, b2, parts, run, v2, ahead, partial, fs, buf) =
      on_message-Cuts ps b1 later fuel v1 i.frames
        (ap (λ t. t ++ later) same ∙ append_assoc (contents b) bytes later ∙ i.ahead) hf in
    (
      b1,
      record { packets = qs; force_closed = false; left = b2 },
      rs,
      read,
      run,
      refl,
      parts,
      record {
        valid = v2;
        frames = fs;
        ahead = ahead;
        partial = partial;
        limit = omega (
          arith,
          ap length buf,
          size,
          i.limit,
          length-contents b i.valid,
          partial-lt (contents b) ps i.frames i.partial,
        );
      },
    )

regroup_parts :
    (ps qs rs us ws : List Packet) → ps ≡ qs ++ rs → rs ≡ us ++ ws → ps ≡ (qs ++ us) ++ ws
regroup_parts ps qs rs us ws e k = e ∙ ap (λ t. qs ++ t) k ∙ sym (append_assoc qs us ws)

feed-Feeds :
    (arrivals : List (List ℕ)) (queue later : List ℕ) (ps : List Packet) (b : RingBuffer) (fuel : ℕ)
    → Between b (queue ++ (join arrivals ++ later)) ps
    → length ps < fuel
    → Feeds later ps (feed fuel queue arrivals b)
unfolding feed
feed-Feeds [] queue later ps b fuel i hf = (
  record { packets = []; force_closed = false; left = b; unread = queue },
  refl,
  refl,
  ps,
  refl,
  i,
)
feed-Feeds (arrived ∷ others) queue later ps b fuel i hf =
    let (b1, r, rs, read, run, closed, parts, i') =
      feed_step b (take cap avail) (drop cap avail ++ (join others ++ later)) ps fuel
        (subst (λ t. Between b t ps) regroup i) (omega (arith, length-take cap avail)) hf in
    let (f, done, closed', rs', parts', i'') =
      feed-Feeds others (drop cap avail) later rs r.left fuel i'
        (omega (arith, ap length parts, length-append r.packets rs)) in
    (
      record {
        packets = r.packets ++ f.packets;
        force_closed = r.force_closed || f.force_closed;
        left = f.left;
        unread = f.unread;
      },
      rw (read, feed, run, done),
      rw (closed, closed'),
      rs',
      regroup_parts ps r.packets rs f.packets rs' parts parts',
      i'',
    )
  where
    cap : ℕ
    cap = read_capacity b

    avail : List ℕ
    avail = queue ++ arrived

    regroup :
        queue ++ ((arrived ++ join others) ++ later)
        ≡ take cap avail ++ (drop cap avail ++ (join others ++ later))
    regroup =
        ap (λ t. queue ++ t) (append_assoc arrived (join others) later)
        ∙ sym (append_assoc queue arrived (join others ++ later))
        ∙ ap (λ t. t ++ (join others ++ later)) (sym (take-append-drop cap avail))
        ∙ append_assoc (take cap avail) (drop cap avail) (join others ++ later)

-- An empty input buffer between two events.
pub empty-Between :
    (b : RingBuffer) (ps : List Packet) (later : List ℕ)
    → IsValid b
    → contents b ≡ []
    → length b.buffer ≤ input_limit
    → AllFrames ps
    → later ≡ stream ps
    → Between b later ps
unfolding stream
empty-Between b [] later v e k fs l = record {
  valid = v;
  frames = fs;
  ahead = ap (λ t. t ++ later) e ∙ l;
  partial = e;
  limit = k;
}
empty-Between b (p ∷ ps) later v e k fs l = record {
  valid = v;
  frames = fs;
  ahead = ap (λ t. t ++ later) e ∙ l;
  partial = omega (arith, ap length e, length-packet_bytes p fs.0, fs.0.counted);
  limit = k;
}

-- However the network and `readv` cut a stream of well-formed packets that arrives at a valid and empty
-- input buffer with a vector of at most 262152 bytes, the run ends, no connection is closed, the packets handed on are the first ones sent, whole and
-- in order, the bytes kept and unread are exactly those of the others, no whole packet is kept
-- in the buffer, and its vector stays within 262152 bytes. The fuel must exceed the number of packets.
pub feed-stream :
    (fuel : ℕ) (ps : List Packet) (arrivals : List (List ℕ)) (b : RingBuffer)
    → IsValid b
    → contents b ≡ []
    → length b.buffer ≤ input_limit
    → AllFrames ps
    → join arrivals ≡ stream ps
    → length ps < fuel
    → (f : Fed) × (feed fuel [] arrivals b ≡ some f)
      × (f.force_closed ≡ false)
      × (rs : List Packet) × (ps ≡ f.packets ++ rs)
      × (contents f.left ++ f.unread ≡ stream rs)
      × IsPartial (contents f.left) rs
      × (length f.left.buffer ≤ input_limit)
feed-stream fuel ps arrivals b v e k fs l hf =
    let (f, done, closed, rs, parts, i) =
      feed-Feeds arrivals [] [] ps b fuel
        (empty-Between b ps (join arrivals ++ []) v e k fs (append-nil (join arrivals) ∙ l)) hf in
    (
      f,
      done,
      closed,
      rs,
      parts,
      ap (λ t. contents f.left ++ t) (sym (append-nil f.unread)) ∙ i.ahead,
      i.partial,
      i.limit,
    )
