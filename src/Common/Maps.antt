-- ===== src/Common/Maps.antt =====
-- `std::map` with integer keys: an association list in the order of its keys.
use Prim.Native.Nat.{ℕ, suc, ◌+◌, ◌≤◌, ◌<◌}
use mathlib.Core.Path.{◌≡◌, refl, ap}
use mathlib.Core.Logic.{◌⊎◌, inl, inr}
use mathlib.Core.Bool.{Bool, true, false}
use mathlib.Core.List.{List, [], ◌∷◌}
use mathlib.Core.Option.{Option, none, some}
use native.Mathlib.Omega.{arith}
use chater.Common.Tests.{ltb, ◌==◌, if◌then◌else◌}
use chater.Common.Lists.{length}

abbrev pub Map {ℓ} : Type ℓ → Type ℓ
Map V = List (ℕ × V)

module _ {ℓ} {V : Type ℓ} where
  -- `find`, and the value that it finds.
  unfoldable pub lookup : ℕ → Map V → Option V
  lookup k [] = none
  lookup k ((j, v) ∷ m) = if j == k then some v else lookup k m

  -- `m[k] = v`.
  unfoldable pub insert : ℕ → V → Map V → Map V
  insert k v [] = (k, v) ∷ []
  insert k v ((j, w) ∷ m) =
      let rest = (j, w) ∷ insert k v m in
      if j == k then (k, v) ∷ m else (if ltb k j then (k, v) ∷ (j, w) ∷ m else rest)

  -- `erase(k)`.
  unfoldable pub erase : ℕ → Map V → Map V
  erase k [] = []
  erase k ((j, v) ∷ m) = let rest = erase k m in if j == k then rest else (j, v) ∷ rest

  abbrev pub is_some : Option V → Bool
  is_some none = false
  is_some (some v) = true

  abbrev pub member : ℕ → Map V → Bool
  member k m = is_some (lookup k m)

  -- The keys rise from `n` on.
  abbrev pub IsSorted : ℕ → Map V → Type 0
  IsSorted n [] = Unit {0}
  IsSorted n ((j, v) ∷ m) = (n ≤ j) × IsSorted (suc j) m

module _ {ℓ} {V : Type ℓ} where
  pub option-cases : (x : Option V) → (x ≡ none) ⊎ ((v : V) × (x ≡ some v))
  option-cases none = inl refl
  option-cases (some v) = inr (v, refl)

  pub some_injective : (a b : V) → some a ≡ some b → a ≡ b
  some_injective a b e = ap (λ o. elim o [ none ↦ a | some x ↦ x ]) e

  pub some-of_is_some : (x : Option V) → is_some x ≡ true → (v : V) × (x ≡ some v)
  some-of_is_some none h = absurd (ground arith)
  some-of_is_some (some v) h = (v, refl)

  -- `m[key] = new` is seen at `key` and nowhere else.
  pub lookup-insert :
      (key at : ℕ) (new : V) (table : Map V)
      → lookup at (insert key new table) ≡ (if key == at then some new else lookup at table)
  unfolding insert lookup
  lookup-insert key at new [] = refl
  lookup-insert key at new ((first, old) ∷ table) = ground (arith, lookup-insert key at new table)

  pub lookup-erase :
      (k j : ℕ) (m : Map V) → lookup j (erase k m) ≡ (if k == j then none else lookup j m)
  unfolding lookup erase
  lookup-erase k j [] = ground arith
  lookup-erase k j ((i, w) ∷ m) = ground (arith, lookup-erase k j m)

  pub member-insert :
      (k j : ℕ) (v : V) (m : Map V)
      → member j (insert k v m) ≡ (if k == j then true else member j m)
  member-insert k j v m = ground (arith, lookup-insert k j v m)

  pub member-erase :
      (k j : ℕ) (m : Map V) → member j (erase k m) ≡ (if k == j then false else member j m)
  member-erase k j m = ground (arith, lookup-erase k j m)

  pub IsSorted-mono : {m n : ℕ} (xs : Map V) → m ≤ n → IsSorted n xs → IsSorted m xs
  IsSorted-mono [] h s = tt
  IsSorted-mono ((j, v) ∷ xs) h s = (omega arith, s.1)

  -- Below the first key nothing is found.
  pub lookup_below : (k n : ℕ) (m : Map V) → IsSorted n m → k < n → lookup k m ≡ none
  unfolding lookup
  lookup_below k n [] s h = refl
  lookup_below k n ((j, v) ∷ m) s h = ground (arith, lookup_below k (suc j) m s.1)

  pub insert-IsSorted :
      (k n : ℕ) (v : V) (m : Map V) → n ≤ k → IsSorted n m → IsSorted n (insert k v m)
  unfolding insert
  insert-IsSorted k n v [] h s = (h, tt)
  insert-IsSorted k n v ((j, w) ∷ m) h s = ground (arith, insert-IsSorted k (suc j) v m)

  pub erase-IsSorted : (k n : ℕ) (m : Map V) → IsSorted n m → IsSorted n (erase k m)
  unfolding erase
  erase-IsSorted k n [] s = tt
  erase-IsSorted k n ((j, w) ∷ m) s =
      ground (arith, erase-IsSorted k (suc j) m s.1, IsSorted-mono {m = n} {n = suc j} (erase k m))

  -- `size()` after an insertion.
  pub length-insert :
      (k n : ℕ) (v : V) (m : Map V)
      → IsSorted n m
      → length (insert k v m) ≡ (if member k m then length m else length m + 1)
  unfolding insert lookup
  length-insert k n v [] s = refl
  length-insert k n v ((j, w) ∷ m) s =
      ground (arith, length-insert k (suc j) v m s.1, lookup_below k (suc j) m s.1)

  -- `erase` counts what it erases.
  pub length-erase :
      (k n : ℕ) (m : Map V)
      → IsSorted n m
      → length m ≡ (if member k m then length (erase k m) + 1 else length (erase k m))
  unfolding erase lookup
  length-erase k n [] s = refl
  length-erase k n ((j, w) ∷ m) s = ground (
    arith,
    length-erase k (suc j) m s.1,
    lookup_below k (suc j) m s.1,
    erase_absent k (suc j) m s.1,
  )
    where
      erase_absent : (k n : ℕ) (m : Map V) → IsSorted n m → k < n → erase k m ≡ m
      erase_absent k n [] s h = refl
      erase_absent k n ((j, w) ∷ m) s h = ground (arith, erase_absent k (suc j) m s.1)

  -- A map in which no key is found is empty.
  pub eq_nil_of_lookup : (m : Map V) → ((k : ℕ) → member k m ≡ false) → m ≡ []
  unfolding lookup
  eq_nil_of_lookup [] h = refl
  eq_nil_of_lookup ((j, v) ∷ m) h = absurd (ground (arith, h j))
