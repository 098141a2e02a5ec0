-- ===== src/ApiClient/Descriptors.antt =====
-- Which descriptor a client (HPGateway/src/api_cli/ApiClient.cpp) holds open, by its system calls.
use chater.Common.{
  ℕ, ◌≡◌, refl, inl, inr, true, ◌||◌, Option, none, some, List, [], ◌∷◌, ◌++◌, ◌==◌, ==_refl, ltb,
  ◌-◌, if◌then◌else◌, ◌>>=◌, Bool-cases, subst,
}
use chater.Common.Maps.{option-cases, some-of_is_some}
use chater.Packet.{PacketHeader, header_of}
use chater.Packet.Commands.{cmd_heartbeat_req}
use chater.Codec.{max_packet}
use chater.ApiClient.{
  ApiClient, Effect, calls_back, Network, Request, connect, disconnect, request, send_heartbeat_rsp,
  set_response_callback,
}
use chater.ApiClient.Replay.{
  replay, replay-chain, replay-if, disconnect-Leads, connect-Leads, request-Leads,
}
use chater.ApiClient.Report.{print_body}
use chater.ApiClient.Receive.{Input, Reply, on_response, recv_body, recv_packet}
use chater.ApiClient.Receive.Gather.{recv_all-Succeeds}
use chater.ApiClient.Receive.Packets.{recv_packet-Succeeds, recv_packet-run}

-- The calls of the client's public methods, with what the system answers.
pub data ClientCall : Type 0 where
  connecting : Network → ClientCall
  disconnecting : ClientCall
  requesting : Request → Option ℕ → ClientCall
  receiving : Option ℕ → List Input → ClientCall
  setting_callback : ClientCall

unfoldable pub client_step : ClientCall → ApiClient → Option (ApiClient × List Effect)
client_step (connecting net) c = some (connect net c).1
client_step disconnecting c = some (disconnect c)
client_step (requesting r taken) c = some (request r taken c).1
client_step (receiving taken s) c = do r ← recv_packet taken c s; some (c, r.effects)
client_step setting_callback c = some (set_response_callback c, [])

unfoldable pub run_client : List ClientCall → ApiClient → Option (ApiClient × List Effect)
run_client [] c = some (c, [])
run_client (call ∷ calls) c = do
  (c1, es) ← client_step call c
  (c2, fs) ← run_client calls c1
  some (c2, es ++ fs)

send_heartbeat_rsp-replay :
    (seq : ℕ) (taken : Option ℕ) (c : ApiClient)
    → replay (send_heartbeat_rsp seq taken c) c.sockfd ≡ some c.sockfd
unfolding send_heartbeat_rsp replay
send_heartbeat_rsp-replay seq taken c = elim (option-cases c.sockfd) [
  | inl off ↦ simp (send_heartbeat_rsp, off) refl
  | inr (fd, on) ↦ simp (send_heartbeat_rsp, replay, on, ==_refl fd) refl
]

-- What a call of `RecvPacket` does keeps the descriptor.
abbrev Keeps : Option ℕ → Option (List Effect) → Type 0
Keeps held none = Unit {0}
Keeps held (some es) = replay es held ≡ some held

on_response-Keeps :
    (h : PacketHeader) (body : List ℕ) (taken : Option ℕ) (c : ApiClient)
    → Keeps c.sockfd (on_response h body taken c)
unfolding on_response replay
on_response-Keeps h body taken c = elim (option-cases (print_body h.cmd body)) [
  | inl bad ↦ simp (on_response, bad) tt
  | inr (lines, shown) ↦
      simp (on_response, shown)
        (replay-chain (if h.cmd == cmd_heartbeat_req then send_heartbeat_rsp h.seq taken c else [])
          (if c.has_callback then calls_back h.cmd h.seq body ∷ [] else []) c.sockfd c.sockfd
          c.sockfd
          (replay-if (h.cmd == cmd_heartbeat_req) (send_heartbeat_rsp h.seq taken c) c.sockfd
            (send_heartbeat_rsp-replay h.seq taken c))
          (replay-if c.has_callback (calls_back h.cmd h.seq body ∷ []) c.sockfd refl))
]

abbrev KeepsAfter : Option ℕ → Option Reply → Type 0
KeepsAfter held none = Unit {0}
KeepsAfter held (some r) = replay r.effects held ≡ some held

answered-KeepsAfter :
    (held : Option ℕ) (o : Option (List Effect)) (left : List Input)
    → Keeps held o
    → KeepsAfter held (o >>= (λ es. some (record { ok = true; effects = es; left = left })))
answered-KeepsAfter held none left h = tt
answered-KeepsAfter held (some es) left h = h

recv_body-KeepsAfter :
    (h : PacketHeader) (taken : Option ℕ) (c : ApiClient) (s : List Input)
    → KeepsAfter c.sockfd (recv_body h taken c s)
unfolding recv_body replay
recv_body-KeepsAfter h taken c s = elim (Bool-cases (ltb h.length 12 || ltb max_packet h.length)) [
  | inl bad ↦ rw bad refl
  | inr good ↦
      let (g, run) = recv_all-Succeeds (h.length - 12) s in
      elim (Bool-cases g.complete) [
        | inl full ↦
            rw (good, run, full)
              (answered-KeepsAfter c.sockfd (on_response h g.bytes taken c) g.left
                (on_response-Keeps h g.bytes taken c))
        | inr cut ↦ rw (good, run, cut) refl
      ]
]

recv_packet-KeepsAfter :
    (taken : Option ℕ) (c : ApiClient) (s : List Input)
    → KeepsAfter c.sockfd (recv_packet taken c s)
unfolding recv_packet replay
recv_packet-KeepsAfter taken c s = elim (option-cases c.sockfd) [
  | inl off ↦ simp (recv_packet, off) refl
  | inr (fd, o) ↦
      let (g, run) = recv_all-Succeeds 12 s in
      elim (Bool-cases g.complete) [
        | inl full ↦
            rw (recv_packet-run fd taken c s g o run, full)
              (recv_body-KeepsAfter (header_of g.bytes) taken c g.left)
        | inr cut ↦ rw (recv_packet-run fd taken c s g o run, cut) refl
      ]
]

-- A step that succeeds and whose system calls fit together.
abbrev pub Fits : ApiClient → Option (ApiClient × List Effect) → Type 0
Fits c o =
    (c' : ApiClient) × (es : List Effect) × (o ≡ some (c', es))
    × (replay es c.sockfd ≡ some c'.sockfd)

client_step-Fits : (call : ClientCall) (c : ApiClient) → Fits c (client_step call c)
unfolding client_step replay set_response_callback
client_step-Fits (connecting net) c = (_, _, refl, connect-Leads net c)
client_step-Fits disconnecting c = (_, _, refl, (disconnect-Leads c).0)
client_step-Fits (requesting r taken) c = (_, _, refl, request-Leads r taken c)
client_step-Fits (receiving taken s) c =
    let (r, run) = some-of_is_some _ (recv_packet-Succeeds taken c s) in
    (c, r.effects, rw run refl, subst (KeepsAfter c.sockfd) run (recv_packet-KeepsAfter taken c s))
client_step-Fits setting_callback c = (_, _, refl, refl)

-- Any sequence of calls of the client's methods, with any answers of the system and any input, runs to
-- its end and never holds two descriptors, never closes or writes to one that it does not hold, and
-- ends with exactly the descriptor in `sockfd_` open.
pub run_client-Fits : (calls : List ClientCall) (c : ApiClient) → Fits c (run_client calls c)
unfolding run_client replay
run_client-Fits [] c = (c, [], refl, refl)
run_client-Fits (call ∷ calls) c =
    let (c1, es, step, leads) = client_step-Fits call c in
    let (c2, fs, run, leads') = run_client-Fits calls c1 in
    (c2, es ++ fs, rw (step, run) refl, replay-chain es fs _ _ _ leads leads')
