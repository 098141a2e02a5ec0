-- ===== src/Router/Idle.antt =====
-- `CleanupIdleConnections`: which entries go, and what becomes of the counter.
use chater.Common.{
  ℕ, suc, ◌*◌, ◌^◌, leb, ◌+◌, ◌-◌, ◌≡◌, refl, Bool, false, none, some, [], ◌∷◌, if◌then◌else◌,
  arith,
}
use chater.Common.Maps.{Map, lookup, IsSorted, lookup_below}
use chater.Router.{Router, is_idle, count_down, cleanup, cleanup_idle_connections}

-- The nanoseconds since the last message are at least this many seconds.
abbrev pub waited : ℕ → ℕ → ℕ → Bool
waited seconds now last = leb (seconds * 10 ^ 9) (now - last)

is_idle_lem : (seconds now last : ℕ) → is_idle seconds now last ≡ waited seconds now last
unfolding is_idle
is_idle_lem seconds now last = ground arith

-- The entry of an identity is idle, and how many entries are.
unfoldable pub has_gone_idle : ℕ → ℕ → ℕ → Map ℕ → Bool
has_gone_idle seconds now id m = elim (lookup id m) [
  | none ↦ false
  | some last ↦ waited seconds now last
]

unfoldable pub idle_count : ℕ → ℕ → Map ℕ → ℕ
idle_count seconds now [] = 0
idle_count seconds now ((id, last) ∷ m) =
    (if waited seconds now last then 1 else 0) + idle_count seconds now m

cleanup-kept :
    (seconds now n id : ℕ) (m : Map ℕ) (active : ℕ)
    → IsSorted n m
    → lookup id (cleanup seconds now m active).0
      ≡ (if has_gone_idle seconds now id m then none else lookup id m)
unfolding cleanup has_gone_idle lookup
cleanup-kept seconds now n id [] active s = refl
cleanup-kept seconds now n id ((first, last) ∷ m) active s = ground (
  arith,
  is_idle_lem seconds now last,
  lookup_below id (suc first) m s.1,
  cleanup-kept seconds now (suc first) id m
      (if is_idle seconds now last then count_down active else active) s.1,
)

cleanup-active :
    (seconds now : ℕ) (m : Map ℕ) (active : ℕ)
    → (cleanup seconds now m active).1 ≡ active - idle_count seconds now m
unfolding cleanup idle_count count_down
cleanup-active seconds now [] active = omega arith
cleanup-active seconds now ((first, last) ∷ m) active = ground (
  arith,
  is_idle_lem seconds now last,
  cleanup-active seconds now m (if is_idle seconds now last then count_down active else active),
)

-- A cleanup, of a table in the order of its keys, takes away exactly the entries that have been idle for
-- the timeout or longer, and lowers the counter by their number, down to 0 at most. It does so whether
-- or not the client of an entry was ever counted, and every known identity stays known.
pub cleanup_idle_connections_lem :
    (now id : ℕ) (r : Router)
    → IsSorted 0 r.last_active
    → let r' = cleanup_idle_connections now r in
      (lookup id r'.last_active ≡ (
        if has_gone_idle r.idle_timeout_sec now id r.last_active
        then none
        else lookup id r.last_active))
      × (r'.active_connections
          ≡ r.active_connections - idle_count r.idle_timeout_sec now r.last_active)
      × (r'.known_identities ≡ r.known_identities)
unfolding cleanup_idle_connections
cleanup_idle_connections_lem now id r s = (
  cleanup-kept r.idle_timeout_sec now 0 id r.last_active r.active_connections s,
  cleanup-active r.idle_timeout_sec now r.last_active r.active_connections,
  refl,
)
