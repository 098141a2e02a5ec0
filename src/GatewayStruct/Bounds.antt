-- ===== src/GatewayStruct/Bounds.antt =====
-- The fields of a struct of HPGateway/include/gateway/GatewayStruct.h against its size.
use chater.Common.{
  ℕ, ◌+◌, ◌≤◌, ◌≡◌, refl, Bool, true, ◌&&◌, ◌⊎◌, inl, inr, Option, none, some, List, [], ◌∷◌, ltb,
  ◌==◌, ◌>>=◌, load_lem, arith, length, Bool-cases, subst,
}
use chater.Common.Maps.{is_some, option-cases}
use chater.GatewayStruct.{
  FieldType, chars, int32, double64, uint64, FieldName, Struct, name_number, size, alignment,
  align_up, end_from, struct_alignment, size_of, find_field, read_field, read_fields,
}

-- Rounding up to an alignment loses nothing and adds less than the alignment.
pub align_up-le : (n : ℕ) (t : FieldType) → n ≤ align_up n (alignment t)
unfolding align_up alignment
align_up-le n (chars m) = omega arith
align_up-le n int32 = omega arith
align_up-le n double64 = omega arith
align_up-le n uint64 = omega arith

pub end_from-le : (n : ℕ) (s : Struct) → n ≤ end_from n s
unfolding end_from
end_from-le n [] = omega arith
end_from-le n ((f, t) ∷ s) =
    omega (arith, align_up-le n t, end_from-le (align_up n (alignment t) + size t) s)

alignment-cases : (t : FieldType) → (alignment t ≡ 1) ⊎ ((alignment t ≡ 4) ⊎ (alignment t ≡ 8))
unfolding alignment
alignment-cases (chars n) = inl refl
alignment-cases int32 = inr (inl refl)
alignment-cases double64 = inr (inr refl)
alignment-cases uint64 = inr (inr refl)

struct_alignment-cases :
    (s : Struct) → (struct_alignment s ≡ 1) ⊎ ((struct_alignment s ≡ 4) ⊎ (struct_alignment s ≡ 8))
unfolding struct_alignment
struct_alignment-cases [] = inl refl
struct_alignment-cases ((f, t) ∷ s) = elim (Bool-cases (ltb (struct_alignment s) (alignment t))) [
  | inl larger ↦ rw larger (alignment-cases t)
  | inr smaller ↦ rw smaller (struct_alignment-cases s)
]

end_from-size_of : (s : Struct) → end_from 0 s ≤ size_of s
unfolding size_of align_up
end_from-size_of s = elim (struct_alignment-cases s) [
  | inl one ↦ rw one (omega arith)
  | inr (inl four) ↦ rw four (omega arith)
  | inr (inr eight) ↦ rw eight (omega arith)
]

-- A field that is found ends at `n` at the latest.
abbrev pub EndsBy : ℕ → Option (ℕ × FieldType) → Type 0
EndsBy n none = Unit {0}
EndsBy n (some (at, t)) = at + size t ≤ n

find_field-EndsBy : (f : FieldName) (n : ℕ) (s : Struct) → EndsBy (end_from n s) (find_field f n s)
unfolding find_field end_from
find_field-EndsBy f n [] = tt
find_field-EndsBy f n ((g, t) ∷ s) = elim (Bool-cases (name_number g == name_number f)) [
  | inl same ↦ rw same (end_from-le (align_up n (alignment t) + size t) s)
  | inr other ↦ rw other (find_field-EndsBy f (align_up n (alignment t) + size t) s)
]

-- Every name is a field of the struct.
abbrev pub are_fields : List FieldName → Struct → Bool
are_fields [] s = true
are_fields (f ∷ fs) s = is_some (find_field f 0 s) && are_fields fs s

read_field-Succeeds :
    (block : List ℕ) (base : ℕ) (s : Struct) (f : FieldName)
    → is_some (find_field f 0 s) ≡ true
    → base + size_of s ≤ length block
    → is_some (read_field block base s f) ≡ true
unfolding read_field
read_field-Succeeds block base s f h k = elim (option-cases (find_field f 0 s)) [
  | inl missing ↦ ground (arith, missing)
  | inr ((at, t), found) ↦ rw (
    found,
    load_lem block (base + at) (size t) (
        omega (
          arith,
          subst (EndsBy (end_from 0 s)) found (find_field-EndsBy f 0 s),
          end_from-size_of s,
        )),
  )
]

pub is_some-bind :
    {A B C : Type 0} (o : Option A) (p : Option B) (f : A → B → C)
    → is_some o ≡ true
    → is_some p ≡ true
    → is_some (o >>= (λ a. p >>= (λ b. some (f a b)))) ≡ true
is_some-bind none p f h k = h
is_some-bind (some a) none f h k = k
is_some-bind (some a) (some b) f h k = refl

-- Reading fields of a struct that lies within a block never leaves the block.
pub read_fields-Succeeds :
    (block : List ℕ) (base : ℕ) (s : Struct) (fs : List FieldName)
    → are_fields fs s ≡ true
    → base + size_of s ≤ length block
    → is_some (read_fields block base s fs) ≡ true
unfolding read_fields
read_fields-Succeeds block base s [] h k = refl
read_fields-Succeeds block base s (f ∷ fs) h k =
    is_some-bind (read_field block base s f) (read_fields block base s fs) (λ a b. a ∷ b)
      (read_field-Succeeds block base s f (ground arith) k)
      (read_fields-Succeeds block base s fs (ground arith) k)
