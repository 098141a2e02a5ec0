-- ===== src/ApiClient/Replay.antt =====
-- The descriptor that the system calls of HPGateway/src/api_cli/ApiClient.cpp open, use and close.
use chater.Common.{
  ℕ, ◌≡◌, refl, ap, ◌∙◌, inl, inr, Bool, true, false, Option, none, some, List, [], ◌∷◌, ◌++◌, ◌==◌,
  ==_refl, arith, if◌then◌else◌, ◌>>=◌, Bool-cases,
}
use chater.Common.Maps.{option-cases}
use chater.ApiClient.{
  ApiClient, Effect, opens, closes, writes, prints, calls_back, Network, Request, connects, connect,
  open_socket, disconnect, request, request_body, send_request, is_connected,
}
use chater.ApiClient.Receive.{}

-- The descriptor that is open after system calls from one that is open before. `none` is a misuse: a
-- second one is opened, or one that is not open is closed or written to.
unfoldable pub replay : List Effect → Option ℕ → Option (Option ℕ)
replay [] held = some held
replay (opens fd ∷ es) none = replay es (some fd)
replay (opens fd ∷ es) (some g) = none
replay (closes fd ∷ es) none = none
replay (closes fd ∷ es) (some g) = elim (fd == g) [ true ↦ replay es none | false ↦ none ]
replay (writes fd bytes taken ∷ es) none = none
replay (writes fd bytes taken ∷ es) (some g) = elim (fd == g) [
  | true ↦ replay es (some g)
  | false ↦ none
]
replay (prints header lines ∷ es) held = replay es held
replay (calls_back cmd seq body ∷ es) held = replay es held

replay-append :
    (es fs : List Effect) (held : Option ℕ)
    → replay (es ++ fs) held ≡ (replay es held >>= (λ h. replay fs h))
unfolding replay
replay-append [] fs held = refl
replay-append (opens fd ∷ es) fs none = replay-append es fs (some fd)
replay-append (opens fd ∷ es) fs (some g) = refl
replay-append (closes fd ∷ es) fs none = refl
replay-append (closes fd ∷ es) fs (some g) = elim (Bool-cases (fd == g)) [
  | inl same ↦ rw (replay, same) (replay-append es fs none)
  | inr other ↦ rw (replay, other) refl
]
replay-append (writes fd bytes taken ∷ es) fs none = refl
replay-append (writes fd bytes taken ∷ es) fs (some g) = elim (Bool-cases (fd == g)) [
  | inl same ↦ rw (replay, same) (replay-append es fs (some g))
  | inr other ↦ rw (replay, other) refl
]
replay-append (prints header lines ∷ es) fs held = replay-append es fs held
replay-append (calls_back cmd seq body ∷ es) fs held = replay-append es fs held

pub replay-chain :
    (es fs : List Effect) (h i j : Option ℕ)
    → replay es h ≡ some i
    → replay fs i ≡ some j
    → replay (es ++ fs) h ≡ some j
replay-chain es fs h i j k l = replay-append es fs h ∙ ap (λ o. o >>= (λ x. replay fs x)) k ∙ l

pub replay-if :
    (b : Bool) (es : List Effect) (h : Option ℕ)
    → replay es h ≡ some h
    → replay (if b then es else []) h ≡ some h
unfolding replay
replay-if true es h k = k
replay-if false es h k = refl

-- The calls lead from the descriptor of one client to that of another.
abbrev pub Leads : ApiClient → ApiClient × List Effect → Type 0
Leads c (c', es) = replay es c.sockfd ≡ some c'.sockfd

pub disconnect-Leads : (c : ApiClient) → Leads c (disconnect c) × ((disconnect c).0.sockfd ≡ none)
unfolding disconnect replay
disconnect-Leads c = elim (option-cases c.sockfd) [
  | inl off ↦ (simp (disconnect, off) refl, simp (disconnect, off) refl)
  | inr (fd, on) ↦ (simp (disconnect, replay, on, ==_refl fd) refl, simp (disconnect, on) refl)
]

open_socket-Leads :
    (net : Network) (c : ApiClient) → c.sockfd ≡ none → Leads c (open_socket net c).1
unfolding open_socket replay
open_socket-Leads net c off = elim (Bool-cases net.resolves) [
  | inl found ↦ elim (option-cases net.socket) [
    | inl failed ↦ simp (open_socket, found, failed, off) refl
    | inr (fd, opened) ↦ elim (Bool-cases (connects net.connecting)) [
      | inl up ↦ simp (open_socket, found, opened, up, off) refl
      | inr down ↦ simp (open_socket, found, opened, down, off, replay) (rw (==_refl fd) refl)
    ]
  ]
  | inr lost ↦ simp (open_socket, lost, off) refl
]

send_request-Leads :
    (cmd : ℕ) (bytes : List ℕ) (taken : Option ℕ) (c : ApiClient)
    → Leads c (send_request cmd bytes taken c).1
unfolding send_request replay
send_request-Leads cmd bytes taken c = elim (option-cases c.sockfd) [
  | inl off ↦ simp (send_request, off) refl
  | inr (fd, on) ↦ simp (send_request, replay, on, ==_refl fd) refl
]

-- The call of `Disconnect` at the start of `Connect`.
ended-Leads :
    (b : Bool) (c : ApiClient)
    → (b ≡ false → c.sockfd ≡ none)
    → Leads c (if b then disconnect c else (c, []))
      × ((if b then disconnect c else (c, [])).0.sockfd ≡ none)
unfolding replay
ended-Leads true c h = disconnect-Leads c
ended-Leads false c h = (refl, h refl)

connected_of_false : (c : ApiClient) → is_connected c ≡ false → c.sockfd ≡ none
connected_of_false c h = elim (option-cases c.sockfd) [
  | inl off ↦ off
  | inr (fd, on) ↦ absurd (ground (arith, on, h))
]

pub connect-Leads : (net : Network) (c : ApiClient) → Leads c (connect net c).1
unfolding connect
connect-Leads net c =
    let (leads, off) = ended-Leads (is_connected c) c (connected_of_false c) in
    replay-chain _ _ _ _ _ leads (open_socket-Leads net _ off)

pub request-Leads : (r : Request) (taken : Option ℕ) (c : ApiClient) → Leads c (request r taken c).1
unfolding request replay
request-Leads r taken c = elim (option-cases (request_body r)) [
  | inl nothing ↦ rw (request, nothing) refl
  | inr ((cmd, bytes), body) ↦ rw (request, body) (send_request-Leads cmd bytes taken c)
]
