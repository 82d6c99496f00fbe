-- ===== src/Backup/Push/Tests.antt =====
-- A push at concrete failures.
use bastion_hub.Prelude.{
  ℕ, zero, suc, ◌==◌, if◌then◌else◌, ◌+◌, ◌≤◌, ◌<◌, ◌≡◌, refl, Bool, false, codes, contains,
  has_prefix, to_lower, arith,
}
use bastion_hub.Backup.Push.{
  Attempt, push_failed, pushed, done, push_archive_reliable, is_likely_permanent_push_error,
}
use bastion_hub.Backup.Push.Attempts.{push_succeeds, FailsForNow}

abbrev third_works : ℕ → Attempt
third_works n = if n == 2 then pushed else push_failed (codes "timeout")

abbrev lasting : ℕ → Bool
lasting n = false

timeout_passes : is_likely_permanent_push_error (codes "timeout") ≡ false
unfolding is_likely_permanent_push_error contains has_prefix to_lower
timeout_passes = refl

first_two : (i : ℕ) → 0 ≤ i → i < 0 + 2 → FailsForNow third_works lasting i
first_two zero a b = (refl, (codes "timeout", refl, timeout_passes))
first_two (suc zero) a b = (refl, (codes "timeout", refl, timeout_passes))
first_two (suc (suc i)) a b = absurd (omega (arith, b))

push_succeeds_example : push_archive_reliable third_works lasting ≡ done 2
push_succeeds_example = push_succeeds third_works lasting 2 2 refl first_two refl refl

abbrev never_works : ℕ → Attempt
never_works n = push_failed (codes "timeout")
