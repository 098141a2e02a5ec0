-- ===== src/Codec/Stream.antt =====
-- The loop of `Codec::OnMessage` on a part of a stream of packets.
use chater.Common.{
  ℕ, zero, suc, ◌≤◌, ◌<◌, ◌≡◌, refl, sym, ap, ◌∙◌, false, List, [], ◌∷◌, ◌++◌, length, take, drop,
  arith, length-append, length-drop, take-append_le, drop-append_le, drop-append_length,
  take-append_length, take-append-drop, eq_nil_of_length,
}
use native.Mathlib.Decide.{dec_lt}
use chater.RingBuffer.{RingBuffer}
use chater.RingBuffer.Invariant.{IsValid}
use chater.RingBuffer.Contents.{contents}
use chater.Packet.{Packet, packet_bytes}
use chater.Codec.{Run, finished, on_message}
use chater.Codec.Framing.{IsFrame, next_packet-delivered, next_packet-waiting, next_packet-empty}

unfoldable pub stream : List Packet → List ℕ
stream [] = []
stream (p ∷ ps) = packet_bytes p ++ stream ps

abbrev pub AllFrames : List Packet → Type 0
AllFrames [] = Unit {0}
AllFrames (p ∷ ps) = IsFrame p × AllFrames ps

-- The bytes stop before the end of the first packet.
abbrev pub IsPartial : List ℕ → List Packet → Type 0
IsPartial bytes [] = bytes ≡ []
IsPartial bytes (p ∷ ps) = length bytes < length (packet_bytes p)

-- The run delivers all packets that are complete, in order, closes nothing, and keeps the rest.
abbrev pub Cuts : RingBuffer → List ℕ → List Packet → Run → Type 0
Cuts b later ps run =
    (qs : List Packet) × (rs : List Packet) × (b' : RingBuffer) × (ps ≡ qs ++ rs)
    × (run ≡ finished (record { packets = qs; force_closed = false; left = b' }))
    × IsValid b'
    × (contents b' ++ later ≡ stream rs)
    × IsPartial (contents b') rs
    × AllFrames rs
    × (b'.buffer ≡ b.buffer)

-- A list that starts another one and is at least as long as its first part.
split_front :
    (xs later ys zs : List ℕ)
    → xs ++ later ≡ ys ++ zs
    → length ys ≤ length xs
    → xs ≡ ys ++ drop (length ys) xs
split_front xs later ys zs e h =
    sym (take-append-drop (length ys) xs)
    ∙ ap (λ t. t ++ drop (length ys) xs)
        (sym (take-append_le (length ys) xs later h)
          ∙ ap (take (length ys)) e
          ∙ take-append_length (length ys) ys zs refl)

split_back :
    (xs later ys zs : List ℕ)
    → xs ++ later ≡ ys ++ zs
    → length ys ≤ length xs
    → drop (length ys) xs ++ later ≡ zs
split_back xs later ys zs e h =
    sym (drop-append_le (length ys) xs later h)
    ∙ ap (drop (length ys)) e
    ∙ drop-append_length (length ys) ys zs refl

-- When a valid buffer holds the first bytes of a stream of well-formed packets, the loop ends, given more
-- fuel than packets: it delivers exactly the packets that are whole, in order, closes nothing, and
-- leaves in the buffer part of the next packet at most, in a vector that is as it was.
pub on_message-Cuts :
    (ps : List Packet) (b : RingBuffer) (later : List ℕ) (fuel : ℕ)
    → IsValid b
    → AllFrames ps
    → contents b ++ later ≡ stream ps
    → length ps < fuel
    → Cuts b later ps (on_message fuel b)
unfolding on_message stream
on_message-Cuts ps b later zero v fs e h = absurd (omega arith)
on_message-Cuts [] b later (suc fuel) v fs e h =
    let none_left : contents b ≡ [] =
      eq_nil_of_length (contents b)
        (omega (arith, ap length e, length-append (contents b) later)) in
    ([], [], b, refl, rw (next_packet-empty b v none_left, on_message), v, e, none_left, tt, refl)
on_message-Cuts (p ∷ ps) b later (suc fuel) v fs e h =
    elim (dec_lt (length (contents b)) (length (packet_bytes p))) [
      | yes part ↦ (
        [],
        p ∷ ps,
        b,
        refl,
        rw (
          next_packet-waiting b p _ v fs.0
              (sym
                (split_front (packet_bytes p) (stream ps) (contents b) later (sym e) (omega arith)))
              (omega (arith, length-drop (length (contents b)) (packet_bytes p))),
          on_message,
        ),
        v,
        e,
        part,
        fs,
        refl,
      )
      | no whole ↦
          let (b', next, v', left, same) =
            next_packet-delivered b p _ v fs.0
              (split_front (contents b) later (packet_bytes p) (stream ps) e (omega arith)) in
          let (qs, rs, b'', parts, run, v'', left', partial, fs', same') =
            on_message-Cuts ps b' later fuel v' fs.1
              (ap (λ t. t ++ later) left
                ∙ split_back (contents b) later (packet_bytes p) (stream ps) e (omega arith))
              (omega arith) in
          (
            p ∷ qs,
            rs,
            b'',
            ap (λ t. p ∷ t) parts,
            rw (next, on_message, run),
            v'',
            left',
            partial,
            fs',
            same' ∙ same,
          )
    ]
