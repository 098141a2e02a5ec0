-- ===== src/Acceptor/Spare.antt =====
-- The descriptors of HPGateway/src/net/Acceptor.cpp.
use chater.Common.{
  ℕ, ◌≡◌, refl, ap, ◌∙◌, Bool, true, false, inl, inr, Option, none, some, List, [], ◌∷◌, ◌++◌, ◌==◌,
  ==_refl, if◌then◌else◌, ◌>>=◌, Bool-cases,
}
use chater.Acceptor.{
  Acceptor, Action, opens, closes, new_connection, Accepted, connfd, failed, emfile, close_if,
  open_if, handle_read, run_acceptor,
}

-- The descriptors that the acceptor has open, the last one first. Only the last one may be closed or
-- handed over, which leaves it to the server; anything else is a misuse, `none`.
unfoldable pub held : List Action → List ℕ → Option (List ℕ)
held [] fds = some fds
held (opens fd ∷ acts) fds = held acts (fd ∷ fds)
held (closes fd ∷ acts) [] = none
held (closes fd ∷ acts) (g ∷ fds) = elim (fd == g) [ true ↦ held acts fds | false ↦ none ]
held (new_connection fd ∷ acts) [] = none
held (new_connection fd ∷ acts) (g ∷ fds) = elim (fd == g) [ true ↦ held acts fds | false ↦ none ]

abbrev pub spare_of : Acceptor → List ℕ
spare_of a = elim a.idle_fd [ none ↦ [] | some fd ↦ fd ∷ [] ]

held-append :
    (xs ys : List Action) (fds : List ℕ) → held (xs ++ ys) fds ≡ (held xs fds >>= (λ l. held ys l))
unfolding held
held-append [] ys fds = refl
held-append (opens fd ∷ xs) ys fds = held-append xs ys (fd ∷ fds)
held-append (closes fd ∷ xs) ys [] = refl
held-append (closes fd ∷ xs) ys (g ∷ fds) = elim (Bool-cases (fd == g)) [
  | inl same ↦ rw (held, same) (held-append xs ys fds)
  | inr other ↦ rw (held, other) refl
]
held-append (new_connection fd ∷ xs) ys [] = refl
held-append (new_connection fd ∷ xs) ys (g ∷ fds) = elim (Bool-cases (fd == g)) [
  | inl same ↦ rw (held, same) (held-append xs ys fds)
  | inr other ↦ rw (held, other) refl
]

-- Giving up the spare descriptor and taking another.
emfile_lem :
    (idle again spare : Option ℕ)
    → held
        (close_if idle ++ (open_if again ++ (close_if again ++ open_if spare)))
        (elim idle [ none ↦ [] | some fd ↦ fd ∷ [] ])
      ≡ some (elim spare [ none ↦ [] | some fd ↦ fd ∷ [] ])
unfolding held
emfile_lem none none none = refl
emfile_lem none none (some s) = refl
emfile_lem none (some g) none = rw (held, ==_refl g) refl
emfile_lem none (some g) (some s) = rw (held, ==_refl g) refl
emfile_lem (some i) none none = rw (held, ==_refl i) refl
emfile_lem (some i) none (some s) = rw (held, ==_refl i) refl
emfile_lem (some i) (some g) none = rw (held, ==_refl i, ==_refl g) refl
emfile_lem (some i) (some g) (some s) = rw (held, ==_refl i, ==_refl g) refl

connfd_lem :
    (b : Bool) (fd : ℕ) (fds : List ℕ)
    → held (opens fd ∷ (if b then new_connection fd ∷ [] else closes fd ∷ [])) fds ≡ some fds
unfolding held
connfd_lem true fd fds = rw (held, ==_refl fd) refl
connfd_lem false fd fds = rw (held, ==_refl fd) refl

handle_read-held :
    (answer : Accepted) (again spare : Option ℕ) (a : Acceptor)
    → held (handle_read answer again spare a).1 (spare_of a)
      ≡ some (spare_of (handle_read answer again spare a).0)
unfolding handle_read held
handle_read-held (connfd fd) again spare a = connfd_lem a.has_callback fd (spare_of a)
handle_read-held (failed errno) again spare a = elim (Bool-cases (errno == emfile)) [
  | inl full ↦ simp (handle_read, full) (emfile_lem a.idle_fd again spare)
  | inr other ↦ simp (handle_read, other) refl
]

-- Over any events of the listening socket, with any answers of the system, every accepted descriptor is
-- handed to the server or closed, none is closed or handed over that is not open, and in the end the
-- acceptor has exactly its spare descriptor open.
pub run_acceptor-held :
    (events : List (Accepted × (Option ℕ × Option ℕ))) (a : Acceptor)
    → held (run_acceptor events a).1 (spare_of a) ≡ some (spare_of (run_acceptor events a).0)
unfolding run_acceptor held
run_acceptor-held [] a = refl
run_acceptor-held ((answer, (again, spare)) ∷ events) a =
    let a1 = (handle_read answer again spare a).0 in
    held-append (handle_read answer again spare a).1 (run_acceptor events a1).1 (spare_of a)
    ∙ ap (λ o. o >>= (λ l. held (run_acceptor events a1).1 l))
        (handle_read-held answer again spare a)
    ∙ run_acceptor-held events a1
