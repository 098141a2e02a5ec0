-- ===== src/ApiClient/Receive/Packets.antt =====
-- `ApiClient::RecvPacket` (HPGateway/src/api_cli/ApiClient.cpp) on packets that arrive in any segments.
use chater.Common.{
  ℕ, ◌-◌, ◌≤◌, ◌<◌, ◌≡◌, refl, sym, ap, ◌∙◌, inl, inr, true, false, ◌||◌, Option, some, List, ◌++◌,
  length, take, arith, length-take, take-append_ge, append_assoc, subst, if◌then◌else◌, ltb,
  Bool-cases,
}
use chater.Common.Maps.{is_some, option-cases, some-of_is_some}
use chater.Packet.{Packet, PacketHeader, header_of, header_bytes, packet_bytes, length-header_bytes}
use chater.Codec.{max_packet}
use chater.Codec.Framing.{IsFrame, header_of_front}
use chater.ApiClient.{ApiClient, Effect}
use chater.ApiClient.Report.{print_body}
use chater.ApiClient.Report.Reads.{print_body-Succeeds, is_some-map}
use chater.ApiClient.Receive.{
  Input, Gathered, Reply, give_up, recv_all, on_response, recv_body, recv_packet,
}
use chater.ApiClient.Receive.Gather.{
  arriving, beyond, recv_all-front, recv_all-Succeeds, recv_all-short,
}
use native.Mathlib.Decide.{dec_lt}

-- What a successful `RecvPacket` does with a packet.
abbrev pub Handles : Packet → Option ℕ → ApiClient → List ℕ → Option Reply → Type 0
Handles p taken c rest reply =
    (effects : List Effect) × (s' : List Input) × (on_response p.header p.body taken c
      ≡ some effects)
    × (reply ≡ some (record { ok = true; effects = effects; left = s' }))
    × (arriving s' ≡ rest)

pub on_response-Succeeds :
    (h : PacketHeader) (body : List ℕ) (taken : Option ℕ) (c : ApiClient)
    → is_some (on_response h body taken c) ≡ true
unfolding on_response
on_response-Succeeds h body taken c =
    is_some-map (print_body h.cmd body) _ (print_body-Succeeds h.cmd body)

accepted :
    (h : PacketHeader)
    → 12 ≤ h.length
    → h.length ≤ max_packet
    → (ltb h.length 12 || ltb max_packet h.length) ≡ false
accepted h k l = ground arith

recv_body-run :
    (h : PacketHeader) (taken : Option ℕ) (c : ApiClient) (s s' : List Input) (body : List ℕ)
    (effects : List Effect)
    → 12 ≤ h.length
    → h.length ≤ max_packet
    → recv_all (h.length - 12) (h.length - 12) s
      ≡ some (record { complete = true; bytes = body; left = s' })
    → on_response h body taken c ≡ some effects
    → recv_body h taken c s ≡ some (record { ok = true; effects = effects; left = s' })
unfolding recv_body
recv_body-run h taken c s s' body effects k l run done = rw (accepted h k l, run, done) refl

recv_body-Handles :
    (p : Packet) (taken : Option ℕ) (c : ApiClient) (s : List Input) (rest : List ℕ)
    → IsFrame p
    → arriving s ≡ p.body ++ rest
    → Handles p taken c rest (recv_body p.header taken c s)
recv_body-Handles p taken c s rest f e =
    let (s', run, left, kept) =
      recv_all-front (p.header.length - 12) s p.body rest (omega arith) e in
    let (effects, done) = some-of_is_some _ (on_response-Succeeds p.header p.body taken c) in
    (
      effects,
      s',
      done,
      recv_body-run p.header taken c s s' p.body effects (omega arith) f.bounded run done,
      left,
    )

pub recv_packet-run :
    (fd : ℕ) (taken : Option ℕ) (c : ApiClient) (s : List Input) (head : Gathered)
    → c.sockfd ≡ some fd
    → recv_all 12 12 s ≡ some head
    → recv_packet taken c s ≡ (
        if head.complete
        then recv_body (header_of head.bytes) taken c head.left
        else some (give_up head.left))
unfolding recv_packet
recv_packet-run fd taken c s head o run = simp (recv_packet, o, run) refl

-- On a connected client, `RecvPacket` reads a whole packet that is within the limit, in whatever
-- segments it arrives, handles its header and its body, and leaves what follows it.
pub recv_packet-Handles :
    (p : Packet) (fd : ℕ) (taken : Option ℕ) (c : ApiClient) (s : List Input) (rest : List ℕ)
    → IsFrame p
    → c.sockfd ≡ some fd
    → arriving s ≡ packet_bytes p ++ rest
    → Handles p taken c rest (recv_packet taken c s)
unfolding packet_bytes
recv_packet-Handles p fd taken c s rest f o e =
    let (s1, run, behind_header, kept) =
      recv_all-front 12 s (header_bytes p.header) (p.body ++ rest)
        (sym (length-header_bytes p.header))
        (e ∙ append_assoc (header_bytes p.header) p.body rest) in
    subst (Handles p taken c rest)
      (sym (
        recv_packet-run fd taken c s _ o run
        ∙ ap (λ h. recv_body h taken c s1) (header_of_front p.header f.fields)))
      (recv_body-Handles p taken c s1 rest f behind_header)

recv_body-Succeeds :
    (h : PacketHeader) (taken : Option ℕ) (c : ApiClient) (s : List Input)
    → is_some (recv_body h taken c s) ≡ true
unfolding recv_body
recv_body-Succeeds h taken c s = elim (Bool-cases (ltb h.length 12 || ltb max_packet h.length)) [
  | inl bad ↦ rw bad refl
  | inr good ↦
      let (g, run) = recv_all-Succeeds (h.length - 12) s in
      elim (Bool-cases g.complete) [
        | inl full ↦
            rw (good, run, full)
              (is_some-map (on_response h g.bytes taken c) _
                (on_response-Succeeds h g.bytes taken c))
        | inr cut ↦ rw (good, run, cut) refl
      ]
]

-- `RecvPacket` returns on any input, whatever the bytes and the segments are: each `RecvAll` ends
-- within the number of bytes that it waits for, and the printing reads no byte outside the body.
pub recv_packet-Succeeds :
    (taken : Option ℕ) (c : ApiClient) (s : List Input) → is_some (recv_packet taken c s) ≡ true
unfolding recv_packet
recv_packet-Succeeds taken c s = elim (option-cases c.sockfd) [
  | inl off ↦ simp (recv_packet, off) refl
  | inr (fd, o) ↦
      let (g, run) = recv_all-Succeeds 12 s in
      elim (Bool-cases g.complete) [
        | inl full ↦
            rw (recv_packet-run fd taken c s g o run, full)
              (recv_body-Succeeds (header_of g.bytes) taken c g.left)
        | inr cut ↦ rw (recv_packet-run fd taken c s g o run, cut) refl
      ]
]

recv_body-short :
    (h : PacketHeader) (taken : Option ℕ) (c : ApiClient) (s : List Input)
    → 12 ≤ h.length
    → h.length ≤ max_packet
    → length (arriving s) < h.length - 12
    → recv_body h taken c s ≡ some (give_up (beyond s))
unfolding recv_body
recv_body-short h taken c s k l m =
    rw (accepted h k l, recv_all-short (h.length - 12) (h.length - 12) s (omega arith) m) refl

-- If a packet breaks off before `recv` has no more, in its header or in its body, `RecvPacket` fails
-- and what it has read is lost: the next call starts with the bytes that follow.
pub recv_packet-cut :
    (p : Packet) (fd k : ℕ) (taken : Option ℕ) (c : ApiClient) (s : List Input)
    → IsFrame p
    → c.sockfd ≡ some fd
    → k < p.header.length
    → arriving s ≡ take k (packet_bytes p)
    → recv_packet taken c s ≡ some (give_up (beyond s))
unfolding packet_bytes
recv_packet-cut p fd k taken c s f o h e = elim (dec_lt k 12) [
  | yes less ↦ recv_packet-run fd taken c s _ o (
      recv_all-short 12 12 s (omega arith)
        (omega (arith, ap length e, length-take k (header_bytes p.header ++ p.body))))
  | no more ↦
      let (s1, run, behind_header, kept) =
        recv_all-front 12 s (header_bytes p.header) (take (k - 12) p.body)
          (sym (length-header_bytes p.header))
          (e
            ∙ take-append_ge k (header_bytes p.header) p.body
                (omega (arith, length-header_bytes p.header))
            ∙ ap (λ m. header_bytes p.header ++ take (k - m) p.body)
                (length-header_bytes p.header)) in
      recv_packet-run fd taken c s _ o run
      ∙ ap (λ h. recv_body h taken c s1) (header_of_front p.header f.fields)
      ∙ recv_body-short p.header taken c s1 (omega arith) f.bounded
          (omega (arith, ap length behind_header, length-take (k - 12) p.body))
      ∙ ap (λ r. some (give_up r)) kept
]
