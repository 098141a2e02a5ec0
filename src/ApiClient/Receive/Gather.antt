-- ===== src/ApiClient/Receive/Gather.antt =====
-- `ApiClient::RecvAll` (HPGateway/src/api_cli/ApiClient.cpp) against the bytes that arrive.
use chater.Common.{
  ℕ, zero, suc, ◌+◌, ◌-◌, ◌≤◌, ◌<◌, ◌≡◌, refl, sym, ap, ◌∙◌, ◌⊎◌, inl, inr, true, false, Option,
  some, List, [], ◌∷◌, ◌++◌, length, take, drop, arith, length-append, append_assoc,
  take-append-drop, take-append_length, drop-append_length,
}
use native.Mathlib.Decide.{dec_lt}
use chater.ApiClient.Receive.{
  Input, segment, pause, hang_up, broken, Recv, got, closed, failed, Gathered, recv, recv_all,
  behind,
}

-- The bytes before the first moment at which `recv` has none, and what is left after it.
unfoldable pub arriving : List Input → List ℕ
arriving [] = []
arriving (segment xs ∷ s) = xs ++ arriving s
arriving (pause ∷ s) = []
arriving (hang_up ∷ s) = []
arriving (broken ∷ s) = []

unfoldable pub beyond : List Input → List Input
beyond [] = []
beyond (segment xs ∷ s) = beyond s
beyond (pause ∷ s) = s
beyond (hang_up ∷ s) = hang_up ∷ s
beyond (broken ∷ s) = s

-- One `recv` that takes bytes from the front.
record Takes (n : ℕ) (s : List Input) : Type 0 where
  first : ℕ
  others : List ℕ
  rest : List Input
  answers : (recv n s).0 ≡ got (take n (first ∷ others))
  leaves : (recv n s).1 ≡ segment (drop n (first ∷ others)) ∷ rest
  splits : arriving s ≡ first ∷ (others ++ arriving rest)
  keeps : beyond rest ≡ beyond s

record Stops (n : ℕ) (s : List Input) : Type 0 where
  answer : Recv
  answers : (recv n s).0 ≡ answer
  leaves : (recv n s).1 ≡ beyond s
  is_stop : (answer ≡ closed) ⊎ (answer ≡ failed)
  dry : arriving s ≡ []

recv-cases : (n : ℕ) (s : List Input) → Stops n s ⊎ Takes n s
unfolding recv arriving beyond
recv-cases n [] =
    inl (record { answer = failed; answers = refl; leaves = refl; is_stop = inr refl; dry = refl })
recv-cases n (segment [] ∷ s) = elim (recv-cases n s) [
  | inl t ↦ inl (record {
    answer = t.answer;
    answers = t.answers;
    leaves = t.leaves;
    is_stop = t.is_stop;
    dry = t.dry;
  })
  | inr t ↦ inr (record {
    first = t.first;
    others = t.others;
    rest = t.rest;
    answers = t.answers;
    leaves = t.leaves;
    splits = t.splits;
    keeps = t.keeps;
  })
]
recv-cases n (segment (x ∷ xs) ∷ s) = inr (record {
  first = x;
  others = xs;
  rest = s;
  answers = refl;
  leaves = refl;
  splits = refl;
  keeps = refl;
})
recv-cases n (pause ∷ s) =
    inl (record { answer = failed; answers = refl; leaves = refl; is_stop = inr refl; dry = refl })
recv-cases n (hang_up ∷ s) =
    inl (record { answer = closed; answers = refl; leaves = refl; is_stop = inl refl; dry = refl })
recv-cases n (broken ∷ s) =
    inl (record { answer = failed; answers = refl; leaves = refl; is_stop = inr refl; dry = refl })

recv_all-Stops :
    (fuel n : ℕ) (s : List Input)
    → Stops (suc n) s
    → recv_all (suc fuel) (suc n) s
      ≡ some (record { complete = false; bytes = []; left = beyond s })
unfolding recv_all
recv_all-Stops fuel n s t = elim t.is_stop [
  | inl end ↦ rw (recv_all, t.answers, end, t.leaves) refl
  | inr error ↦ rw (recv_all, t.answers, error, t.leaves) refl
]

recv_all-Takes :
    (fuel n : ℕ) (s : List Input) (t : Takes (suc n) s) (g : Gathered)
    → recv_all fuel
        (suc n - length (take (suc n) (t.first ∷ t.others)))
        (segment (drop (suc n) (t.first ∷ t.others)) ∷ t.rest)
      ≡ some g
    → recv_all (suc fuel) (suc n) s ≡ some (behind (take (suc n) (t.first ∷ t.others)) g)
unfolding recv_all
recv_all-Takes fuel n s t g h = rw (recv_all, t.answers, t.leaves, h) refl

sub_zero : (n : ℕ) → n - 0 ≡ n
sub_zero n = omega arith

sub_suc : (n m : ℕ) → suc n - suc m ≡ n - m
sub_suc n m = omega arith

-- Taking what is there and then the rest from the next segments is taking from all of them.
take-step :
    (n : ℕ) (xs ys : List ℕ)
    → take n xs ++ take (n - length (take n xs)) (drop n xs ++ ys) ≡ take n (xs ++ ys)
take-step zero xs ys = refl
take-step (suc n) [] ys = ap (λ m. take m ys) (sub_zero (suc n))
take-step (suc n) (x ∷ xs) ys =
    rw (sub_suc n (length (take n xs))) (ap (λ t. x ∷ t) (take-step n xs ys))

drop-step :
    (n : ℕ) (xs ys : List ℕ) → drop (n - length (take n xs)) (drop n xs ++ ys) ≡ drop n (xs ++ ys)
drop-step zero xs ys = refl
drop-step (suc n) [] ys = ap (λ m. drop m ys) (sub_zero (suc n))
drop-step (suc n) (x ∷ xs) ys = rw (sub_suc n (length (take n xs))) (drop-step n xs ys)

length-step :
    (n : ℕ) (xs ys : List ℕ) → length (drop n xs ++ ys) + length (take n xs) ≡ length (xs ++ ys)
length-step zero xs ys = omega arith
length-step (suc n) [] ys = omega arith
length-step (suc n) (x ∷ xs) ys = omega (arith, length-step n xs ys)

-- A call that waits for no more than arrives gets exactly that, from any segments, and leaves the
-- rest.
pub recv_all-enough :
    (fuel n : ℕ) (s : List Input)
    → n ≤ fuel
    → n ≤ length (arriving s)
    → (s' : List Input) × (recv_all fuel n s
        ≡ some (record { complete = true; bytes = take n (arriving s); left = s' }))
      × (arriving s' ≡ drop n (arriving s))
      × (beyond s' ≡ beyond s)
unfolding recv_all arriving beyond
recv_all-enough fuel zero s h k = (s, refl, refl, refl)
recv_all-enough zero (suc n) s h k = elim h [ ]
recv_all-enough (suc fuel) (suc n) s h k = elim (recv-cases (suc n) s) [
  | inl t ↦ absurd (omega (arith, ap length t.dry))
  | inr t ↦
      let xs = t.first ∷ t.others in
      let (s', run, dropped, kept) =
        recv_all-enough fuel (suc n - length (take (suc n) xs)) (segment (drop (suc n) xs) ∷ t.rest)
          (omega arith)
          (omega (arith, length-step (suc n) xs (arriving t.rest), ap length t.splits)) in
      (
        s',
        recv_all-Takes fuel n s t _ run
            ∙ ap some (
                ap (λ l. record { complete = true; bytes = l; left = s' })
                  (take-step (suc n) xs (arriving t.rest) ∙ ap (take (suc n)) (sym t.splits))),
        dropped ∙ drop-step (suc n) xs (arriving t.rest) ∙ ap (drop (suc n)) (sym t.splits),
        kept ∙ t.keeps,
      )
]

-- What stands at the front of what arrives.
pub recv_all-front :
    (n : ℕ) (s : List Input) (xs rest : List ℕ)
    → n ≡ length xs
    → arriving s ≡ xs ++ rest
    → (s' : List Input) × (recv_all n n s
        ≡ some (record { complete = true; bytes = xs; left = s' }))
      × (arriving s' ≡ rest)
      × (beyond s' ≡ beyond s)
recv_all-front n s xs rest h e =
    let (s', run, dropped, kept) =
      recv_all-enough n n s (omega arith) (omega (arith, ap length e, length-append xs rest)) in
    (
      s',
      run
          ∙ ap (λ l. some (record { complete = true; bytes = l; left = s' }))
              (ap (take n) e ∙ take-append_length n xs rest h),
      dropped ∙ ap (drop n) e ∙ drop-append_length n xs rest h,
      kept,
    )

abbrev pub stopped : List ℕ → List Input → Option Gathered
stopped xs s = some (record { complete = false; bytes = xs; left = s })

-- A call that waits for more than arrives fails; the bytes that it took are gone from the socket.
pub recv_all-short :
    (fuel n : ℕ) (s : List Input)
    → n ≤ fuel
    → length (arriving s) < n
    → recv_all fuel n s ≡ stopped (arriving s) (beyond s)
unfolding recv_all arriving beyond
recv_all-short fuel zero s h k = elim k [ ]
recv_all-short zero (suc n) s h k = elim h [ ]
recv_all-short (suc fuel) (suc n) s h k = elim (recv-cases (suc n) s) [
  | inl t ↦ recv_all-Stops fuel n s t ∙ ap (λ xs. stopped xs (beyond s)) (sym t.dry)
  | inr t ↦
      let xs = t.first ∷ t.others in
      recv_all-Takes fuel n s t _ (
        recv_all-short fuel (suc n - length (take (suc n) xs)) (segment (drop (suc n) xs) ∷ t.rest)
          (omega arith)
          (omega (arith, length-step (suc n) xs (arriving t.rest), ap length t.splits)))
      ∙ ap (λ ys. stopped ys (beyond t.rest))
          (sym (append_assoc (take (suc n) xs) (drop (suc n) xs) (arriving t.rest))
            ∙ ap (λ ys. ys ++ arriving t.rest) (take-append-drop (suc n) xs)
            ∙ sym t.splits)
      ∙ ap (λ r. stopped (arriving s) r) t.keeps
]

pub recv_all-Succeeds : (n : ℕ) (s : List Input) → (g : Gathered) × (recv_all n n s ≡ some g)
recv_all-Succeeds n s = elim (dec_lt (length (arriving s)) n) [
  | yes less ↦ (_, recv_all-short n n s (omega arith) less)
  | no more ↦
      let (s', run, dropped, kept) = recv_all-enough n n s (omega arith) (omega arith) in (_, run)
]
