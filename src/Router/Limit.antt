-- ===== src/Router/Limit.antt =====
-- The limit on clients, where no idle timeout is configured, and what is handed on.
use chater.Common.{
  ℕ, ◌+◌, ◌≤◌, ◌<◌, ◌≡◌, refl, sym, ap, ◌∙◌, Bool, true, false, not, ◌&&◌, List, [], ◌∷◌, ◌++◌, ltb,
  leb, ◌==◌, length, arith, Bool-cases, inl, inr, lt→ltb,
}
use chater.Common.Maps.{insert}
use chater.Router.{
  Router, new_router, Message, Poll, poll_error, timed_out, other_event, receive_failed, received,
  Effect, sends_pong, submits, calls, Flow, continues, breaks, contains, ping_type, hand_on, admit,
  on_received, dispatch_pass, follow, dispatch_loop,
}

-- Every message that is handed on comes from one of these identities.
unfoldable pub all_from : List ℕ → List Effect → Bool
all_from ids [] = true
all_from ids (submits m ∷ es) = contains m.identity ids && all_from ids es
all_from ids (calls m ∷ es) = contains m.identity ids && all_from ids es
all_from ids (sends_pong id ∷ es) = all_from ids es

-- The identities, each once.
unfoldable pub is_distinct : List ℕ → Bool
is_distinct [] = true
is_distinct (x ∷ xs) = not (contains x xs) && is_distinct xs

-- The counter counts the known identities, within the limit.
pub record IsLimited (r : Router) : Type 0 where
  pub limited : 0 < r.max_connections
  pub untimed : r.idle_timeout_sec ≡ 0
  pub counted : r.active_connections ≡ length r.known_identities
  pub distinct : is_distinct r.known_identities ≡ true
  pub bounded : length r.known_identities ≤ r.max_connections

-- What a pass keeps, and that what it hands on comes from known identities.
pub record Keeps (r r' : Router) (es : List Effect) : Type 0 where
  pub limited : IsLimited r'
  pub known : all_from r'.known_identities es ≡ true
  pub same_max : r'.max_connections ≡ r.max_connections
  pub grows :
      (id : ℕ) → contains id r.known_identities ≡ true → contains id r'.known_identities ≡ true

-- A pass that changes neither the counter nor the known identities.
quiet-Keeps :
    (r r' : Router) (es : List Effect)
    → IsLimited r
    → r'.max_connections ≡ r.max_connections
    → r'.idle_timeout_sec ≡ r.idle_timeout_sec
    → r'.active_connections ≡ r.active_connections
    → r'.known_identities ≡ r.known_identities
    → all_from r.known_identities es ≡ true
    → Keeps r r' es
quiet-Keeps r r' es l m t a k h = record {
  limited = record {
    limited = omega (arith, l.limited, m);
    untimed = t ∙ l.untimed;
    counted = a ∙ l.counted ∙ ap length (sym k);
    distinct = ap is_distinct k ∙ l.distinct;
    bounded = omega (arith, l.bounded, m, ap length k);
  };
  known = ap (λ ids. all_from ids es) k ∙ h;
  same_max = m;
  grows = λ id c. ap (contains id) k ∙ c;
}

hand_on-known :
    (m : Message) (r : Router) (ids : List ℕ)
    → contains m.identity ids ≡ true
    → all_from ids (hand_on m r) ≡ true
unfolding hand_on all_from
hand_on-known m r ids h = ground (arith, h)

no_timeout : (r : Router) → IsLimited r → ltb 0 r.idle_timeout_sec ≡ false
no_timeout r l = ground (arith, l.untimed)

leb→gt :
    (r : Router)
    → leb r.max_connections r.active_connections ≡ false
    → r.active_connections < r.max_connections
leb→gt r h = ground (arith, h)

-- A new client below the limit.
newcomer-Keeps :
    (m : Message) (r : Router)
    → IsLimited r
    → contains m.identity r.known_identities ≡ false
    → r.active_connections < r.max_connections
    → Keeps r
        (record r {
          known_identities = m.identity ∷ r.known_identities;
          active_connections = r.active_connections + 1;
        })
        (hand_on m r)
unfolding contains is_distinct
newcomer-Keeps m r l new room = record {
  limited = record {
    limited = l.limited;
    untimed = l.untimed;
    counted = omega (arith, l.counted);
    distinct = ground (arith, new, l.distinct);
    bounded = omega (arith, l.counted, room);
  };
  known = hand_on-known m r (m.identity ∷ r.known_identities) (ground arith);
  same_max = refl;
  grows = λ id c. ground (arith, c);
}

admit-Keeps : (m : Message) (r : Router) → IsLimited r → let (r', es) = admit m r in Keeps r r' es
unfolding admit all_from
admit-Keeps m r l = elim (Bool-cases (contains m.identity r.known_identities)) [
  | inl old ↦
      rw (old, lt→ltb 0 r.max_connections l.limited)
        (quiet-Keeps r r (hand_on m r) l refl refl refl refl
          (hand_on-known m r r.known_identities old))
  | inr new ↦ elim (Bool-cases (leb r.max_connections r.active_connections)) [
    | inl full ↦
        rw (new, lt→ltb 0 r.max_connections l.limited, full)
          (quiet-Keeps r r [] l refl refl refl refl refl)
    | inr room ↦
        rw (new, lt→ltb 0 r.max_connections l.limited, room)
          (newcomer-Keeps m r l new (leb→gt r room))
  ]
]

noted : ℕ → Message → Router → Router
noted now m r = record r { last_active = insert m.identity now r.last_active }

noted-IsLimited : (now : ℕ) (m : Message) (r : Router) → IsLimited r → IsLimited (noted now m r)
unfolding noted
noted-IsLimited now m r l = record {
  limited = l.limited;
  untimed = l.untimed;
  counted = l.counted;
  distinct = l.distinct;
  bounded = l.bounded;
}

dispatch_pass-Keeps :
    (running : Bool) (now : ℕ) (poll : Poll) (r : Router)
    → IsLimited r
    → let (flow, r', es) = dispatch_pass running now poll r in Keeps r r' es
unfolding dispatch_pass on_received all_from noted
dispatch_pass-Keeps running now poll_error r l = quiet-Keeps r r [] l refl refl refl refl refl
dispatch_pass-Keeps running now timed_out r l =
    rw (no_timeout r l) (quiet-Keeps r r [] l refl refl refl refl refl)
dispatch_pass-Keeps running now other_event r l = quiet-Keeps r r [] l refl refl refl refl refl
dispatch_pass-Keeps running now receive_failed r l = quiet-Keeps r r [] l refl refl refl refl refl
dispatch_pass-Keeps running now (received m) r l = elim (Bool-cases (m.raw_type == ping_type)) [
  | inl ping ↦
      rw ping
        (quiet-Keeps r (noted now m r) (sends_pong m.identity ∷ []) l refl refl refl refl refl)
  | inr other ↦ rw other (
      let k = admit-Keeps m (noted now m r) (noted-IsLimited now m r l) in
      record { limited = k.limited; known = k.known; same_max = k.same_max; grows = k.grows })
]

-- The loop's state and effects over all its passes.
all_from-append :
    (ids : List ℕ) (es fs : List Effect)
    → all_from ids (es ++ fs) ≡ (all_from ids es && all_from ids fs)
unfolding all_from
all_from-append ids [] fs = refl
all_from-append ids (sends_pong i ∷ es) fs = all_from-append ids es fs
all_from-append ids (submits m ∷ es) fs = ground (arith, all_from-append ids es fs)
all_from-append ids (calls m ∷ es) fs = ground (arith, all_from-append ids es fs)

all_from-grows :
    (ids ids' : List ℕ) (es : List Effect)
    → ((id : ℕ) → contains id ids ≡ true → contains id ids' ≡ true)
    → all_from ids es ≡ true
    → all_from ids' es ≡ true
unfolding all_from
all_from-grows ids ids' [] g h = refl
all_from-grows ids ids' (sends_pong i ∷ es) g h = all_from-grows ids ids' es g h
all_from-grows ids ids' (submits m ∷ es) g h =
    ground (arith, g m.identity, all_from-grows ids ids' es g, h)
all_from-grows ids ids' (calls m ∷ es) g h =
    ground (arith, g m.identity, all_from-grows ids ids' es g, h)

follow-Keeps :
    (flow : Flow) (r r' r'' : Router) (es more : List Effect)
    → Keeps r r' es
    → Keeps r' r'' more
    → let (after, out) = follow flow (r', es) (r'', more) in Keeps r after out
unfolding follow
follow-Keeps breaks r r' r'' es more k k' = k
follow-Keeps continues r r' r'' es more k k' = record {
  limited = k'.limited;
  known = ground (
    arith,
    all_from-append r''.known_identities es more,
    all_from-grows r'.known_identities r''.known_identities es k'.grows k.known,
    k'.known,
  );
  same_max = k'.same_max ∙ k.same_max;
  grows = λ id c. k'.grows id (k.grows id c);
}

dispatch_loop-Keeps :
    (ps : List (Bool × ℕ × Poll)) (r : Router)
    → IsLimited r
    → let (r', es) = dispatch_loop ps r in Keeps r r' es
unfolding dispatch_loop all_from
dispatch_loop-Keeps [] r l = quiet-Keeps r r [] l refl refl refl refl refl
dispatch_loop-Keeps ((running, now, poll) ∷ ps) r l =
    let (flow, r', es) = dispatch_pass running now poll r in
    let (r'', more) = dispatch_loop ps r' in
    let k = dispatch_pass-Keeps running now poll r l in
    follow-Keeps flow r r' r'' es more k (dispatch_loop-Keeps ps r' k.limited)

-- With a limit on the clients and no idle timeout, over any sequence of poll results from the start:
-- the counter is the number of known identities, all different, and within the limit, and every
-- message that is handed to the pool or handled comes from one of them.
pub dispatch_loop-limit :
    (max : ℕ) (pool : Bool) (ps : List (Bool × ℕ × Poll))
    → 0 < max
    → let (r, es) = dispatch_loop ps (new_router max 0 pool) in
      (r.active_connections ≡ length r.known_identities)
      × (is_distinct r.known_identities ≡ true)
      × (length r.known_identities ≤ max)
      × (all_from r.known_identities es ≡ true)
unfolding new_router is_distinct
dispatch_loop-limit max pool ps some_max =
    let k = dispatch_loop-Keeps ps (new_router max 0 pool) (record {
      limited = some_max;
      untimed = refl;
      counted = refl;
      distinct = refl;
      bounded = omega arith;
    }) in
    (k.limited.counted, k.limited.distinct, omega (arith, k.limited.bounded, k.same_max), k.known)
