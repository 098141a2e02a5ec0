-- ===== src/TcpServer/Queue.antt =====
-- The functors of HPGateway/src/net/TcpServer.cpp that wait for one connection, when a loop takes its
-- next one.
use chater.Common.{
  ℕ, ◌≡◌, refl, ap, ◌∙◌, false, inl, inr, Option, none, some, List, [], ◌∷◌, ◌++◌, ◌==◌, ==_iff,
  ==_refl, if◌then◌else◌, Bool-cases, arith, length, length-append,
}
use chater.TcpServer.{Functor, establish, remove_in_loop, destroy, take_turn}

abbrev pub target : Functor → ℕ
target (establish k) = k
target (remove_in_loop k) = k
target (destroy k) = k

-- The functors for one connection, in their order.
unfoldable pub pending_for : ℕ → List (ℕ × Functor) → List (ℕ × Functor)
pending_for k [] = []
pending_for k ((l, f) ∷ fs) =
    let others = pending_for k fs in if target f == k then (l, f) ∷ others else others

pub pending_for-append :
    (k : ℕ) (xs ys : List (ℕ × Functor))
    → pending_for k (xs ++ ys) ≡ pending_for k xs ++ pending_for k ys
unfolding pending_for
pending_for-append k [] ys = refl
pending_for-append k ((l, f) ∷ xs) ys = elim (Bool-cases (target f == k)) [
  | inl same ↦ rw same (ap (λ t. (l, f) ∷ t) (pending_for-append k xs ys))
  | inr other ↦ rw other (pending_for-append k xs ys)
]

-- A functor that is queued when none for its connection waits is the only one.
pub pending_for-queued :
    (l : ℕ) (f : Functor) (fs : List (ℕ × Functor))
    → pending_for (target f) fs ≡ []
    → pending_for (target f) (fs ++ (l, f) ∷ []) ≡ (l, f) ∷ []
unfolding pending_for
pending_for-queued l f fs e =
    pending_for-append (target f) fs ((l, f) ∷ []) ∙ rw (e, ==_refl (target f)) refl

-- Of the functors for its connection one is taken out; those for the others stay.
pub record Removed (loop : ℕ) (f : Functor) (xs rest : List (ℕ × Functor)) : Type 0 where
  pub before : List (ℕ × Functor)
  pub after : List (ℕ × Functor)
  pub was : pending_for (target f) xs ≡ before ++ (loop, f) ∷ after
  pub is : pending_for (target f) rest ≡ before ++ after
  pub others : (k : ℕ) → (target f == k) ≡ false → pending_for k rest ≡ pending_for k xs

abbrev pub Takes : ℕ → List (ℕ × Functor) → Option (Functor × List (ℕ × Functor)) → Type 0
Takes loop xs none = Unit {0}
Takes loop xs (some (f, rest)) = Removed loop f xs rest

behind_other :
    (l loop : ℕ) (g : Functor) (ys : List (ℕ × Functor)) (o : Option (Functor × List (ℕ × Functor)))
    → Takes loop ys o
    → Takes loop ((l, g) ∷ ys) (elim o [ none ↦ none | some (f, gs) ↦ some (f, (l, g) ∷ gs) ])
unfolding pending_for
behind_other l loop g ys none t = tt
behind_other l loop g ys (some (f, gs)) t = elim (Bool-cases (target g == target f)) [
  | inl same ↦ record {
    before = (l, g) ∷ t.before;
    after = t.after;
    was = rw same (ap (λ u. (l, g) ∷ u) t.was);
    is = rw same (ap (λ u. (l, g) ∷ u) t.is);
    others = λ k ne. ap (λ u. if target g == k then (l, g) ∷ u else u) (t.others k ne);
  }
  | inr other ↦ record {
    before = t.before;
    after = t.after;
    was = rw other t.was;
    is = rw other t.is;
    others = λ k ne. ap (λ u. if target g == k then (l, g) ∷ u else u) (t.others k ne);
  }
]

pub take_turn-Takes : (loop : ℕ) (xs : List (ℕ × Functor)) → Takes loop xs (take_turn loop xs)
unfolding take_turn pending_for
take_turn-Takes loop [] = tt
take_turn-Takes loop ((l, f) ∷ ys) = elim (Bool-cases (l == loop)) [
  | inl same ↦ rw same (record {
    before = [];
    after = pending_for (target f) ys;
    was =
        rw (==_refl (target f))
          (ap (λ m. (m, f) ∷ pending_for (target f) ys) ((==_iff l loop).0 same));
    is = refl;
    others = λ k ne. rw ne refl;
  })
  | inr other ↦ rw other (behind_other l loop f ys (take_turn loop ys) (take_turn-Takes loop ys))
]

-- If it was the only one, none is left.
pub only_one :
    {A : Type 0} (before after : List A) (x y : A)
    → before ++ x ∷ after ≡ y ∷ []
    → (x ≡ y) × (before ++ after ≡ [])
only_one [] [] x y e = (ap (λ l. elim l [ [] ↦ x | z ∷ zs ↦ z ]) e, refl)
only_one [] (z ∷ after) x y e = absurd (omega (arith, ap length e))
only_one (z ∷ before) after x y e =
    absurd (omega (arith, ap length e, length-append before (x ∷ after)))

pub not_none : {A B : Type 0} (before after : List A) (x : A) → before ++ x ∷ after ≡ [] → B
not_none before after x e = absurd (omega (arith, ap length e, length-append before (x ∷ after)))
