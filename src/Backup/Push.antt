-- ===== src/Backup/Push.antt =====
-- master/internal/backup/reliable.go: pushArchiveReliable with its classification of errors.
pub mod Attempts
mod Tests
use bastion_hub.Prelude.{
  ℕ, zero, suc, ◌+◌, ◌≡◌, Bool, true, false, ◌&&◌, List, [], ◌∷◌, Text, codes, to_lower, contains,
  any, ltb, if◌then◌else◌,
}

abbrev pub target_push_attempts : ℕ
target_push_attempts = 5

unfoldable pub is_likely_permanent_push_error : Text → Bool
is_likely_permanent_push_error message =
    any (λ p. contains (to_lower message) p)
      (codes "unable to authenticate"
        ∷ codes "no supported methods remain"
        ∷ codes "permission denied"
        ∷ codes "bad credentials"
        ∷ codes "unauthorized"
        ∷ codes "forbidden"
        ∷ codes "invalid_grant"
        ∷ codes "no such host"
        ∷ codes "bucket name"
        ∷ codes "access denied"
        ∷ [])

-- seconds
unfoldable pub push_backoff : ℕ → ℕ
push_backoff zero = 10
push_backoff (suc zero) = 30
push_backoff (suc (suc zero)) = 60
push_backoff (suc (suc (suc attempt))) = 120

-- What an attempt meets: targets.New fails, Push fails, or both succeed; verifyRemoteObject has no
-- error in any case.
pub data Attempt : Type 0 where
  no_uploader : Text → Attempt
  push_failed : Text → Attempt
  pushed : Attempt

pub data PushResult : Type 0 where
  done : ℕ → PushResult
  cancelled : PushResult
  broke : Text → PushResult
  gave_up : Text → PushResult

-- `attempts n` is what the n-th attempt meets, and `ended n` says that the context ends in the wait
-- before it.
module _ (attempts : ℕ → Attempt) (ended : ℕ → Bool) where
  -- The loop from an attempt on, with the attempts that are left and the last error.
  pub push_from : ℕ → ℕ → Text → PushResult
  push_from zero attempt last_err = gave_up last_err
  push_from (suc left) attempt last_err =
      let again = λ (e : Text). push_from left (suc attempt) e in
      if ltb 0 attempt && ended attempt then cancelled else elim (attempts attempt) [
        | no_uploader e ↦ broke e
        | push_failed e ↦ if is_likely_permanent_push_error e then broke e else again e
        | pushed ↦ done attempt
      ]

  -- pushArchiveReliable, once the target's slot is its own
  pub push_archive_reliable : PushResult
  unfolding push_from
  push_archive_reliable = push_from target_push_attempts 0 []
