-- ===== src/Router/Lifetime.antt =====
-- gateway/src/RouterServer.cpp: `Start`, `Stop` and `SendReply`, with the socket and the dispatch thread.
-- What ZeroMQ answers is an argument.
use chater.Common.{
  ℕ, ◌≡◌, refl, ◌∙◌, Bool, true, false, not, Option, none, some, List, [], ◌∷◌, ◌++◌, if◌then◌else◌,
  ◌==◌, ==_refl, ◌>>=◌, ◌>>◌, assert, inl, inr, Bool-cases,
}
use chater.Common.Maps.{option-cases}
use chater.Frames.{Zmq, send_router_message}

-- `has_thread` tells whether `dispatchThread_` is joinable.
pub record RouterServer : Type 0 where
  pub router_sock : Option ℕ
  pub running : Bool
  pub has_thread : Bool

unfoldable pub idle_router : RouterServer
idle_router = record { router_sock = none; running = false; has_thread = false }

pub data SocketEffect : Type 0 where
  opens : ℕ → SocketEffect
  closes : ℕ → SocketEffect
  starts_thread : SocketEffect
  joins_thread : SocketEffect

-- `Start`, with the socket that is created and whether it could be bound: its answer, the server and the
-- calls. A thread that replaces one that was not joined ends the process.
unfoldable pub start_router :
    Option ℕ → Bool → RouterServer → Option (Bool × RouterServer × List SocketEffect)
start_router created bound r = elim r.router_sock [
  | some sock ↦ some (false, r, [])
  | none ↦ elim created [
    | none ↦ some (false, r, [])
    | some sock ↦
        if bound
        then (do
          assert (not r.has_thread)
          some (
            true,
            record { router_sock = some sock; running = true; has_thread = true },
            opens sock ∷ starts_thread ∷ [],
          ))
        else some (false, r, opens sock ∷ closes sock ∷ [])
  ]
]

abbrev pub close_socket : Option ℕ → List SocketEffect
close_socket none = []
close_socket (some sock) = closes sock ∷ []

-- `Stop`, and the destructor.
unfoldable pub stop_router : RouterServer → RouterServer × List SocketEffect
stop_router r = (
  record { router_sock = none; running = false; has_thread = false },
  (if r.has_thread then joins_thread ∷ [] else []) ++ close_socket r.router_sock,
)

-- `SendReply`, over the state of the socket; `none` is the answer false.
unfoldable pub send_reply : {S : Type 0} → Zmq S → List ℕ → ℕ → List ℕ → RouterServer → S → Option S
send_reply zmq identity msg_type body r s = elim r.router_sock [
  | none ↦ none
  | some sock ↦ send_router_message zmq identity msg_type body s
]

pub data RouterCall : Type 0 where
  starts : Option ℕ → Bool → RouterCall
  stops : RouterCall

unfoldable pub call_router : RouterCall → RouterServer → Option (RouterServer × List SocketEffect)
unfolding start_router stop_router
call_router (starts created bound) r = do (ok, r', es) ← start_router created bound r; some (r', es)
call_router stops r = some (stop_router r)

unfoldable pub call_routers :
    List RouterCall → RouterServer → Option (RouterServer × List SocketEffect)
unfolding call_router
call_routers [] r = some (r, [])
call_routers (c ∷ cs) r = do
  (r1, es) ← call_router c r
  (r2, fs) ← call_routers cs r1
  some (r2, es ++ fs)

-- The open socket and whether the thread runs, after calls; `none` is a misuse: a second socket or thread,
-- the end of one that is not there, or the end of the socket under a running thread.
unfoldable pub track : List SocketEffect → Option ℕ → Bool → Option (Option ℕ × Bool)
track [] sock thread = some (sock, thread)
track (opens s ∷ es) none thread = track es (some s) thread
track (opens s ∷ es) (some old) thread = none
track (closes s ∷ es) (some old) false = elim (s == old) [
  | true ↦ track es none false
  | false ↦ none
]
track (closes s ∷ es) (some old) true = none
track (closes s ∷ es) none thread = none
track (starts_thread ∷ es) sock false = track es sock true
track (starts_thread ∷ es) sock true = none
track (joins_thread ∷ es) sock true = track es sock false
track (joins_thread ∷ es) sock false = none

unfoldable pub is_set : Option ℕ → Bool
is_set none = false
is_set (some sock) = true

-- Calls from a server lead to another one: the effects are no misuse and end in its socket and its
-- thread, which there are together.
abbrev pub Leads : RouterServer → Option (RouterServer × List SocketEffect) → Type 0
Leads r o =
    (r' : RouterServer) × (es : List SocketEffect) × (o ≡ some (r', es))
    × (track es r.router_sock r.has_thread ≡ some (r'.router_sock, r'.has_thread))
    × (r'.has_thread ≡ is_set r'.router_sock)

stopped_lem :
    (sock : ℕ) → track (joins_thread ∷ closes sock ∷ []) (some sock) true ≡ some (none, false)
unfolding track
stopped_lem sock = rw (track, ==_refl sock) refl

unbound_lem : (sock : ℕ) → track (opens sock ∷ closes sock ∷ []) none false ≡ some (none, false)
unfolding track
unbound_lem sock = rw (track, ==_refl sock) refl

call-Leads :
    (c : RouterCall) (r : RouterServer)
    → r.has_thread ≡ is_set r.router_sock
    → Leads r (call_router c r)
unfolding call_router start_router stop_router track is_set
call-Leads (starts created bound) r k = elim (option-cases r.router_sock) [
  | inr (sock, on) ↦ (r, [], simp (call_router, start_router, on) refl, refl, k)
  | inl off ↦ started off created bound
]
  where
    started :
        r.router_sock ≡ none
        → (created : Option ℕ) (bound : Bool) → Leads r (call_router (starts created bound) r)
    started off none bound = (r, [], simp (call_router, start_router, off) refl, refl, k)
    started off (some sock) true = (
      record { router_sock = some sock; running = true; has_thread = true },
      opens sock ∷ starts_thread ∷ [],
      simp (call_router, start_router, off, k) refl,
      simp (off, k) refl,
      refl,
    )
    started off (some sock) false = (
      r,
      opens sock ∷ closes sock ∷ [],
      simp (call_router, start_router, off) refl,
      simp (off, k) (unbound_lem sock),
      k,
    )
call-Leads stops r k = elim (option-cases r.router_sock) [
  | inl off ↦ (_, _, refl, simp (off, k) refl, refl)
  | inr (sock, on) ↦ (_, _, refl, simp (on, k) (stopped_lem sock), refl)
]

track-append :
    (es fs : List SocketEffect) (sock : Option ℕ) (thread : Bool)
    → track (es ++ fs) sock thread ≡ (track es sock thread >>= (λ o. track fs o.0 o.1))
unfolding track
track-append [] fs sock thread = refl
track-append (opens s ∷ es) fs none thread = track-append es fs (some s) thread
track-append (opens s ∷ es) fs (some old) thread = refl
track-append (closes s ∷ es) fs none thread = refl
track-append (closes s ∷ es) fs (some old) true = refl
track-append (closes s ∷ es) fs (some old) false = elim (Bool-cases (s == old)) [
  | inl same ↦ rw (track, same) (track-append es fs none false)
  | inr other ↦ rw (track, other) refl
]
track-append (starts_thread ∷ es) fs sock true = refl
track-append (starts_thread ∷ es) fs sock false = track-append es fs sock true
track-append (joins_thread ∷ es) fs sock true = track-append es fs sock false
track-append (joins_thread ∷ es) fs sock false = refl

calls-Leads :
    (cs : List RouterCall) (r : RouterServer)
    → r.has_thread ≡ is_set r.router_sock
    → Leads r (call_routers cs r)
unfolding call_routers track
calls-Leads [] r k = (r, [], refl, refl, k)
calls-Leads (c ∷ cs) r k =
    let (r1, es, e1, f1, k1) = call-Leads c r k in
    let (r2, fs, e2, f2, k2) = calls-Leads cs r1 k1 in
    (
      r2,
      es ++ fs,
      simp (e1, e2) refl,
      track-append es fs r.router_sock r.has_thread ∙ simp f1 f2,
      k2,
    )

pub call_routers-Leads : (cs : List RouterCall) → Leads idle_router (call_routers cs idle_router)
unfolding idle_router is_set
call_routers-Leads cs = calls-Leads cs idle_router refl
