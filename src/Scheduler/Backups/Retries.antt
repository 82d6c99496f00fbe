-- ===== src/Scheduler/Backups/Retries.antt =====
-- The retry loop ends, and what it leaves.
use bastion_hub.Prelude.{
  ℕ, zero, suc, ◌+◌, ◌*◌, ◌≤◌, ◌<◌, ◌≡◌, refl, ap, sym, subst, ◌∙◌, true, false, ◌⊎◌, inl, inr,
  some, List, [], ◌∷◌, arith, ltb, Bool-cases,
}
use bastion_hub.Scheduler.Backups.{
  retryable, Slot, Round, retry_pass, pending, retry_offline_units, offline_retry_window,
  offline_retry_step,
}

-- The same unit later: a unit whose last run ended well, or failed for another reason than the
-- connection, has not been run again.
abbrev pub Kept : Slot → Slot → Type 0
Kept s t = (t.unit_of ≡ s.unit_of) × ((retryable s.error ≡ true) ⊎ (t ≡ s))

abbrev pub AllKept : List Slot → List Slot → Type 0
AllKept [] [] = Unit
AllKept [] (t ∷ ts) = ⊥
AllKept (s ∷ ss) [] = ⊥
AllKept (s ∷ ss) (t ∷ ts) = Kept s t × AllKept ss ts

AllKept-refl : (ss : List Slot) → AllKept ss ss
AllKept-refl [] = tt
AllKept-refl (s ∷ ss) = ((refl, inr refl), AllKept-refl ss)

Kept-trans : (s t u : Slot) → Kept s t → Kept t u → Kept s u
Kept-trans s t u (a, inl b) (d, e) = (d ∙ a, inl b)
Kept-trans s t u (a, inr b) (d, inl e) =
    (d ∙ a, inl (ap (λ (x : Slot). retryable x.error) (sym b) ∙ e))
Kept-trans s t u (a, inr b) (d, inr e) = (d ∙ a, inr (e ∙ b))

AllKept-trans : (ss ts us : List Slot) → AllKept ss ts → AllKept ts us → AllKept ss us
AllKept-trans [] [] us k l = l
AllKept-trans [] (t ∷ ts) us k l = absurd k
AllKept-trans (s ∷ ss) [] us k l = absurd k
AllKept-trans (s ∷ ss) (t ∷ ts) [] k l = l
AllKept-trans (s ∷ ss) (t ∷ ts) (u ∷ us) k l =
    (Kept-trans s t u k.0 l.0, AllKept-trans ss ts us k.1 l.1)

retry_pass-Kept : (r : Round) (ss : List Slot) → AllKept ss (retry_pass r ss)
unfolding retry_pass
retry_pass-Kept r [] = tt
retry_pass-Kept r (s ∷ ss) = ground (arith, retry_pass-Kept r ss)

-- The units after the passes of the first k rounds.
abbrev pub passes : (ℕ → Round) → ℕ → List Slot → List Slot
passes rounds zero slots = slots
passes rounds (suc k) slots = retry_pass (rounds k) (passes rounds k slots)

-- The loop has made k passes, each before the deadline, and has gone on after each but the last only
-- because units were still waiting for their nodes; it ends since none waits any more, or since the
-- clock of the next round has reached the deadline.
abbrev pub EndsAfter : ℕ → (ℕ → Round) → List Slot → ℕ → List Slot → Type 0
EndsAfter deadline rounds slots k end =
    (end ≡ passes rounds k slots)
    × ((i : ℕ) → i < k → (rounds i).now < deadline)
    × ((i : ℕ) → suc i < k → pending (passes rounds (suc i) slots) ≡ true)
    × (((0 < k) × (pending end ≡ false)) ⊎ (deadline ≤ (rounds k).now))

-- The rounds that the window has room for, and the last one, which finds it over.
abbrev pub max_rounds : ℕ
max_rounds = 13

passes-Kept :
    (rounds : ℕ → Round) (k : ℕ) (slots : List Slot) → AllKept slots (passes rounds k slots)
passes-Kept rounds zero slots = AllKept-refl slots
passes-Kept rounds (suc k) slots =
    AllKept-trans slots (passes rounds k slots) _ (passes-Kept rounds k slots)
      (retry_pass-Kept (rounds k) (passes rounds k slots))

Nat-cases : (i n : ℕ) → i < suc n → (i < n) ⊎ (i ≡ n)
Nat-cases i n l = elim (Bool-cases (ltb i n)) [
  | inl less ↦ inl (ground arith)
  | inr same ↦ inr (ground arith)
]

below_suc : (P : ℕ → Type 0) (n : ℕ) → ((i : ℕ) → i < n → P i) → P n → (i : ℕ) → i < suc n → P i
below_suc P n early last i l = elim (Nat-cases i n l) [
  | inl less ↦ early i less
  | inr same ↦ subst P (sym same) last
]

module _ (start : ℕ) (rounds : ℕ → Round)
    (clock : (n : ℕ) → start + n * offline_retry_step ≤ (rounds n).now) where
  abbrev deadline : ℕ
  deadline = start + offline_retry_window

  -- The loop from the n-th round on, after the passes of the rounds before.
  retry_from :
      (fuel n : ℕ) (slots : List Slot)
      → n ≤ 12
      → max_rounds ≤ n + fuel
      → ((i : ℕ) → i < n → (rounds i).now < deadline)
      → ((i : ℕ) → i < n → pending (passes rounds (suc i) slots) ≡ true)
      → (k : ℕ) × (end : List Slot) × (retry_offline_units fuel deadline rounds n
            (passes rounds n slots)
          ≡ some end)
        × (k ≤ 12)
        × EndsAfter deadline rounds slots k end
  unfolding retry_offline_units
  retry_from zero n slots h k early waiting = absurd (omega arith)
  retry_from (suc fuel) n slots h k early waiting =
      elim (Bool-cases (ltb (rounds n).now deadline)) [
        | inr over ↦ (
          n,
          passes rounds n slots,
          rw over refl,
          h,
          (refl, early, (λ i l. waiting i (omega (arith, l))), inr (ground arith)),
        )
        | inl soon ↦
            let before : (i : ℕ) → i < suc n → (rounds i).now < deadline =
              below_suc (λ i. (rounds i).now < deadline) n early (ground arith) in
            let after = passes rounds (suc n) slots in
            elim (Bool-cases (pending after)) [
              | inr done ↦ (
                suc n,
                after,
                rw (soon, done) refl,
                ground (arith, clock n),
                (refl, before, (λ i l. waiting i (omega (arith, l))), inl (omega arith, done)),
              )
              | inl more ↦
                  let fits : suc n ≤ 12 = ground (arith, clock n) in
                  let (m, end, ran, few, ends) =
                    retry_from fuel (suc n) slots fits (omega arith) before (
                      below_suc (λ i. pending (passes rounds (suc i) slots) ≡ true) n waiting
                        more) in
                  (m, end, rw (soon, more) ran, few, ends)
            ]
      ]

  -- Where each round comes at least ten minutes after the one before, 13 rounds are enough: the loop
  -- ends after at most 12 passes. Each of them was made before the two hours were over, and all but
  -- the last left units that wait for their nodes; at the end no unit waits any more, or the next
  -- round finds the two hours over. No unit was run again that had not failed on its connection.
  pub retry_offline_units_ends :
      (slots : List Slot)
      → (k : ℕ) × (end : List Slot) × (retry_offline_units max_rounds deadline rounds 0 slots
          ≡ some end)
        × (k ≤ 12)
        × EndsAfter deadline rounds slots k end
        × AllKept slots end
  retry_offline_units_ends slots =
      let (k, end, ran, few, ends) =
        retry_from max_rounds 0 slots (omega arith) (omega arith) (λ i l. absurd (omega (arith, l)))
          (λ i l. absurd (omega (arith, l))) in
      (k, end, ran, few, ends, rw ends.0 (passes-Kept rounds k slots))
