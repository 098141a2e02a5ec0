-- ===== src/Server/Sweep.antt =====
-- The sweep of `OnHeartbeat` over the table of heartbeats.
use chater.Common.{
  ℕ, suc, ◌-◌, ltb, ◌*◌, ◌≡◌, ◌↔◌, refl, Bool, true, false, ◌||◌, ◌&&◌, Bool-cases, inl, inr,
  Option, none, some, List, [], ◌∷◌, ◌==◌, if◌then◌else◌, arith,
}
use chater.Common.Maps.{
  Map, lookup, erase, IsSorted, IsSorted-mono, erase-IsSorted, lookup_below, lookup-erase,
}
use chater.Sessions.{Sessions, remove_session}
use chater.Connections.{get_connection}
use chater.Server.{Server, Effect, force_closes, is_expired, sweep, on_heartbeat, is_alive}

-- The entry of a connection is older than the timeout.
unfoldable pub has_expired : ℕ → ℕ → ℕ → Map ℕ → Bool
has_expired timeout now id hb = elim (lookup id hb) [
  | none ↦ false
  | some last ↦ ltb timeout (now - last)
]

is_expired_lem : (timeout now last : ℕ) → is_expired timeout now last ≡ ltb timeout (now - last)
unfolding is_expired
is_expired_lem timeout now last = ground arith

-- A connection object is told to close.
unfoldable pub closes : ℕ → List Effect → Bool
closes ref [] = false
closes ref (force_closes r ∷ es) = (r == ref) || closes ref es
closes ref (_ ∷ es) = closes ref es

module _ (find : ℕ → Option ℕ) (timeout now : ℕ) where
  pub sweep-kept :
      (n j : ℕ) (hb : Map ℕ) (sessions : Sessions)
      → IsSorted n hb
      → lookup j (sweep find timeout now hb sessions).0
        ≡ (if has_expired timeout now j hb then none else lookup j hb)
  unfolding sweep has_expired lookup
  sweep-kept n j [] sessions s = refl
  sweep-kept n j ((id, last) ∷ hb) sessions s = ground (
    arith,
    is_expired_lem timeout now last,
    lookup_below j (suc id) hb s.1,
    sweep-kept (suc id) j hb
        (if is_expired timeout now last then (remove_session id sessions).1 else sessions) s.1,
  )

  pub sweep-sessions :
      (n j : ℕ) (hb : Map ℕ) (sessions : Sessions)
      → IsSorted n hb
      → lookup j (sweep find timeout now hb sessions).1
        ≡ (if has_expired timeout now j hb then none else lookup j sessions)
  unfolding sweep has_expired lookup remove_session
  sweep-sessions n j [] sessions s = refl
  sweep-sessions n j ((id, last) ∷ hb) sessions s = ground (
    arith,
    is_expired_lem timeout now last,
    lookup_below j (suc id) hb s.1,
    lookup-erase id j sessions,
    sweep-sessions (suc id) j hb
        (if is_expired timeout now last then erase id sessions else sessions) s.1,
  )

  pub sweep-kept-IsSorted :
      (n : ℕ) (hb : Map ℕ) (sessions : Sessions)
      → IsSorted n hb
      → IsSorted n (sweep find timeout now hb sessions).0
  unfolding sweep
  sweep-kept-IsSorted n [] sessions s = tt
  sweep-kept-IsSorted n ((id, last) ∷ hb) sessions s = ground (
    arith,
    IsSorted-mono {m = n} {n = suc id}
        (sweep find timeout now hb
          (if is_expired timeout now last then (remove_session id sessions).1 else sessions)).0,
    sweep-kept-IsSorted (suc id) hb
        (if is_expired timeout now last then (remove_session id sessions).1 else sessions) s.1,
  )

  pub sweep-sessions-IsSorted :
      (n : ℕ) (hb : Map ℕ) (sessions : Sessions)
      → IsSorted n sessions
      → IsSorted n (sweep find timeout now hb sessions).1
  unfolding sweep remove_session
  sweep-sessions-IsSorted n [] sessions s = s
  sweep-sessions-IsSorted n ((id, last) ∷ hb) sessions s =
      sweep-sessions-IsSorted n hb
        (if is_expired timeout now last then erase id sessions else sessions)
        (ground (arith, erase-IsSorted id n sessions s))

  -- An expired connection whose object still exists is closed.
  sweep-closes :
      (n j ref : ℕ) (hb : Map ℕ) (sessions : Sessions)
      → IsSorted n hb
      → has_expired timeout now j hb ≡ true
      → find j ≡ some ref
      → closes ref (sweep find timeout now hb sessions).2 ≡ true
  unfolding sweep has_expired lookup closes
  sweep-closes n j ref [] sessions s e f = absurd (ground arith)
  sweep-closes n j ref ((id, last) ∷ hb) sessions s e f = ground (
    arith,
    is_expired_lem timeout now last,
    lookup_below j (suc id) hb s.1,
    sweep-closes (suc id) j ref hb
        (if is_expired timeout now last then (remove_session id sessions).1 else sessions) s.1,
  )

  -- What is closed had expired.
  sweep-closed :
      (n ref : ℕ) (hb : Map ℕ) (sessions : Sessions)
      → IsSorted n hb
      → closes ref (sweep find timeout now hb sessions).2 ≡ true
      → (j : ℕ) × (has_expired timeout now j hb ≡ true) × (find j ≡ some ref)
  unfolding sweep has_expired lookup closes
  sweep-closed n ref [] sessions s c = absurd (ground arith)
  sweep-closed n ref ((id, last) ∷ hb) sessions s c = elim (Bool-cases own) [
    | inl e ↦ (id, ground (arith, is_expired_lem timeout now last), ground arith)
    | inr e ↦
        let (j, expired, found) = sweep-closed (suc id) ref hb left s.1 (ground arith) in
        (j, ground (arith, is_expired_lem timeout now last, lookup_below j (suc id) hb s.1), found)
  ]
    where
      gone : Bool
      gone = is_expired timeout now last

      left : Sessions
      left = if gone then (remove_session id sessions).1 else sessions

      own : Bool
      own = gone && elim (find id) [ none ↦ false | some r ↦ r == ref ]

-- A heartbeat tick, over a table in the order of its ids: the entries and the sessions of exactly the
-- connections whose last heartbeat is longer ago than the timeout are gone, an object is told to close
-- exactly if one of those connections has it and it still exists, and no connection is removed.
pub on_heartbeat_lem :
    (now id ref : ℕ) (s : Server)
    → IsSorted 1 s.last_heartbeats
    → let timeout = s.heartbeat_timeout_sec * 1000 in
      let gone = has_expired timeout now id s.last_heartbeats in
      let (s', effects) = on_heartbeat now s in
      (lookup id s'.last_heartbeats ≡ (if gone then none else lookup id s.last_heartbeats))
      × (lookup id s'.sessions ≡ (if gone then none else lookup id s.sessions))
      × (closes ref effects ≡ true
          ↔ (j : ℕ) × (has_expired timeout now j s.last_heartbeats ≡ true)
            × (get_connection (is_alive s) j s.connections ≡ some ref))
      × (s'.connections ≡ s.connections)
unfolding on_heartbeat
on_heartbeat_lem now id ref s sorted = (
  sweep-kept find timeout now 1 id s.last_heartbeats s.sessions sorted,
  sweep-sessions find timeout now 1 id s.last_heartbeats s.sessions sorted,
  (
    sweep-closed find timeout now 1 ref s.last_heartbeats s.sessions sorted,
    λ (j, expired, found).
        sweep-closes find timeout now 1 j ref s.last_heartbeats s.sessions sorted expired found,
  ),
  refl,
)
  where
    timeout : ℕ
    timeout = s.heartbeat_timeout_sec * 1000

    find : ℕ → Option ℕ
    find id = get_connection (is_alive s) id s.connections
