-- ===== src/Backup/Push/Attempts.antt =====
-- The attempts of a push.
use bastion_hub.Prelude.{
  ℕ, zero, suc, ◌+◌, ◌≤◌, ◌<◌, ◌≡◌, refl, ap, sym, ◌∙◌, Bool, false, [], arith, Text,
}
use bastion_hub.Backup.Push.{
  Attempt, push_failed, pushed, done, gave_up, push_from, push_archive_reliable,
  is_likely_permanent_push_error, target_push_attempts,
}

module _ (attempts : ℕ → Attempt) (ended : ℕ → Bool) where
  -- An attempt that is made and fails for a reason that may pass.
  abbrev pub FailsForNow : ℕ → Type 0
  FailsForNow n =
      (ended n ≡ false)
      × ((e : Text) × (attempts n ≡ push_failed e) × (is_likely_permanent_push_error e ≡ false))

  one_more :
      (left n : ℕ) (last : Text)
      → FailsForNow n
      → (e : Text) × (push_from attempts ended (suc left) n last
          ≡ push_from attempts ended left (suc n) e)
  unfolding push_from
  one_more left n last (on, (e, h, k)) = (e, ground (arith, on, h, k))

  succeeds :
      (left n : ℕ) (last : Text)
      → ended n ≡ false
      → attempts n ≡ pushed
      → push_from attempts ended (suc left) n last ≡ done n
  unfolding push_from
  succeeds left n last on h = ground (arith, on, h)

  after_failures :
      (d left n : ℕ) (last : Text)
      → ((i : ℕ) → n ≤ i → i < n + d → FailsForNow i)
      → (e : Text) × (push_from attempts ended (d + left) n last
          ≡ push_from attempts ended left (n + d) e)
  after_failures zero left n last h =
      let zl : 0 + left ≡ left = omega arith in
      let nz : n + 0 ≡ n = omega arith in (last, rw (zl, nz) refl)
  after_failures (suc d) left n last h =
      let (first, p) = one_more (d + left) n last (h n (omega arith) (omega arith)) in
      let (e, q) =
        after_failures d left (suc n) first (λ i a b. h i (omega (arith, a)) (omega (arith, b))) in
      let ls : suc d + left ≡ suc (d + left) = omega arith in
      let ns : n + suc d ≡ suc n + d = omega arith in (e, rw (ls, ns) (p ∙ q))

  -- A push whose first attempts fail for reasons that may pass, and whose next one of the five
  -- succeeds, succeeds with that one, where the context lasts.
  pub push_succeeds :
      (k left : ℕ)
      → k + suc left ≡ target_push_attempts
      → ((i : ℕ) → 0 ≤ i → i < 0 + k → FailsForNow i)
      → ended k ≡ false
      → attempts k ≡ pushed
      → push_archive_reliable attempts ended ≡ done k
  unfolding push_archive_reliable
  push_succeeds k left five h on ok =
      let (e, p) = after_failures k (suc left) 0 [] h in
      let zk : 0 + k ≡ k = omega arith in
      ap (λ n. push_from attempts ended n 0 []) (sym five)
      ∙ p
      ∙ ap (λ n. push_from attempts ended (suc left) n e) zk
      ∙ succeeds left k e on ok

  -- A push whose five attempts fail for reasons that may pass gives up after them.
  push_gives_up :
      ((i : ℕ) → 0 ≤ i → i < 0 + 5 → FailsForNow i)
      → (e : Text) × (push_archive_reliable attempts ended ≡ gave_up e)
  unfolding push_archive_reliable push_from
  push_gives_up h = let (e, p) = after_failures 5 0 0 [] h in (e, p)
