-- ===== src/Health/Alerts/Outage.antt =====
-- One rule over a series of polls: an outage is announced once, when it has lasted for the window, and
-- the rule is armed again by a recovery.
use bastion_hub.Prelude.{
  ℕ, ℤ, pos, negsuc, is_positive, Text, ◌++◌, ◌≤◌, ◌<◌, ◌≡◌, refl, ◌∙◌, Bool, true, false, none,
  some, inl, inr, List, [], ◌∷◌, arith, length, if◌then◌else◌, All, any, Bool-cases,
}
use bastion_hub.Health.Alerts.{
  Float64, Sample, Alert, value, window_over, effective_threshold, is_polled,
}
use bastion_hub.Health.Alerts.Evaluation.{step_alert, DistinctIds}
use bastion_hub.Health.Alerts.Series.{Polls, notified, announced, announced-notified}

module _ {F : Type 0} (fl : Float64 F) where
  open fl use {gt}

  -- The rule's metric is above its threshold in the sample.
  abbrev pub breaches : Alert F → Sample F → Bool
  breaches a sample = elim (value sample a.metric) [
    | none ↦ false
    | some v ↦ gt v (effective_threshold fl a sample)
  ]

  abbrev with_state : Alert F → ℕ → ℕ → Alert F
  with_state a since last = record a { breach_since = since; last_notified = last }

  -- The state columns play no part in whether a rule is breached.
  breaches-with_state :
      (a : Alert F) (since last : ℕ) (sample : Sample F)
      → breaches (with_state a since last) sample ≡ breaches a sample
  unfolding effective_threshold
  breaches-with_state a since last sample = refl

  All-breaches-with_state :
      (a : Alert F) (since last : ℕ) (polls : Polls F)
      → All (λ p. breaches a p.1 ≡ true) polls
      → All (λ p. breaches (with_state a since last) p.1 ≡ true) polls
  All-breaches-with_state a since last [] b = tt
  All-breaches-with_state a since last ((now, sample) ∷ polls) b = (
    breaches-with_state a since last sample ∙ b.0,
    All-breaches-with_state a since last polls b.1,
  )

  step-announced :
      (a : Alert F) (now : ℕ) (sample : Sample F)
      → 0 < a.breach_since
      → a.breach_since ≤ a.last_notified
      → breaches a sample ≡ true
      → step_alert fl now sample a ≡ (a, [])
  step-announced a now sample h k b = ground arith

  step-start :
      (a : Alert F) (now : ℕ) (sample : Sample F)
      → a.breach_since ≡ 0
      → breaches a sample ≡ true
      → step_alert fl now sample a ≡ (with_state a now a.last_notified, [])
  step-start a now sample h b = ground arith

  step-waits :
      (a : Alert F) (now : ℕ) (sample : Sample F)
      → 0 < a.breach_since
      → window_over a.breach_since a.window_sec now ≡ false
      → breaches a sample ≡ true
      → step_alert fl now sample a ≡ (a, [])
  step-waits a now sample h k b = ground arith

  window_over-late :
      (since now : ℕ) (w : ℤ) → is_positive w ≡ true → window_over since w now ≡ true → since ≤ now
  unfolding window_over
  window_over-late since now (pos w) h k = ground (arith, k)
  window_over-late since now (negsuc n) h k = ground (arith, h)

  step-notifies :
      (a : Alert F) (now : ℕ) (sample : Sample F)
      → 0 < a.breach_since
      → a.breach_since ≤ now
      → a.last_notified < a.breach_since
      → window_over a.breach_since a.window_sec now ≡ true
      → breaches a sample ≡ true
      → ((step_alert fl now sample a).0 ≡ with_state a a.breach_since now)
        × (length (step_alert fl now sample a).1 ≡ 1)
  step-notifies a now sample h l k w b = ground arith

  -- In an outage that was announced nothing more is sent.
  notified-announced :
      (a : Alert F) (polls : Polls F)
      → 0 < a.breach_since
      → a.breach_since ≤ a.last_notified
      → All (λ p. breaches a p.1 ≡ true) polls
      → notified fl a polls ≡ 0
  unfolding notified
  notified-announced a [] h k b = refl
  notified-announced a ((now, sample) ∷ polls) h k b =
      rw (step-announced a now sample h k b.0) (omega (arith, notified-announced a polls h k b.1))

  -- Whether a poll comes once the window has passed.
  abbrev pub window_passed : ℕ → ℤ → Polls F → Bool
  window_passed since window polls = any (λ p. window_over since window p.0) polls

  notified-waiting :
      (a : Alert F) (polls : Polls F)
      → is_positive a.window_sec ≡ true
      → a.last_notified < a.breach_since
      → All (λ p. breaches a p.1 ≡ true) polls
      → notified fl a polls ≡ (if window_passed a.breach_since a.window_sec polls then 1 else 0)
  unfolding notified
  notified-waiting a [] w k b = refl
  notified-waiting a ((now, sample) ∷ polls) w k b =
      elim (Bool-cases (window_over a.breach_since a.window_sec now)) [
        | inr early ↦
            rw (step-waits a now sample (omega arith) early b.0, early)
              (ground (arith, notified-waiting a polls w k b.1))
        | inl late ↦
            let after = window_over-late a.breach_since now a.window_sec w late in
            let (state, one) = step-notifies a now sample (omega arith) after k late b.0 in
            let rest =
              notified-announced (with_state a a.breach_since now) polls (omega arith)
                (ground arith) (All-breaches-with_state a a.breach_since now polls b.1) in
            rw (state, one, late, rest) refl
      ]

  -- A poll that is below the threshold clears the outage and sends nothing.
  step-recovers :
      (a : Alert F) (now : ℕ) (sample : Sample F) (v : F)
      → value sample a.metric ≡ some v
      → breaches a sample ≡ false
      → step_alert fl now sample a ≡ (with_state a 0 a.last_notified, [])
  step-recovers a now sample v e b = ground arith

  -- The same for a rule by itself.
  rule_notified_once :
      (a : Alert F) (quiet since : ℕ) (below above : Sample F) (v : F) (polls : Polls F)
      → is_positive a.window_sec ≡ true
      → value below a.metric ≡ some v
      → breaches a below ≡ false
      → a.last_notified < since
      → breaches a above ≡ true
      → All (λ p. breaches a p.1 ≡ true) polls
      → notified fl a ((quiet, below) ∷ (since, above) ∷ polls)
        ≡ (if window_passed since a.window_sec polls then 1 else 0)
  unfolding notified
  rule_notified_once a quiet since below above v polls w e calm later start held =
      let armed = with_state a 0 a.last_notified in
      let waiting =
        notified-waiting (with_state a since a.last_notified) polls w later
          (All-breaches-with_state a since a.last_notified polls held) in
      rw
        (
          step-recovers a quiet below v e calm,
          step-start armed since above refl (breaches-with_state a 0 a.last_notified above ∙ start),
        )
        (ground (arith, waiting))

  -- From any state of the table of rules, which have distinct ids: after a poll of a node in which the
  -- metric of one of its enabled rules is known and not above the threshold, an outage that begins at a
  -- time past the rule's last notification, and lasts for all further polls of the node, is announced
  -- for that rule once if one of these comes at least the rule's window after its beginning, and else
  -- not at all. The window is positive.
  pub outage_notified_once :
      (node : Text) (pre post : List (Alert F)) (a : Alert F) (quiet since : ℕ)
      (below above : Sample F) (v : F) (polls : Polls F)
      → DistinctIds (pre ++ a ∷ post)
      → is_polled node a ≡ true
      → is_positive a.window_sec ≡ true
      → value below a.metric ≡ some v
      → breaches a below ≡ false
      → a.last_notified < since
      → breaches a above ≡ true
      → All (λ p. breaches a p.1 ≡ true) polls
      → announced fl node a.id (pre ++ a ∷ post) ((quiet, below) ∷ (since, above) ∷ polls)
        ≡ (if window_passed since a.window_sec polls then 1 else 0)
  outage_notified_once node pre post a quiet since below above v polls d on w e calm later start
        held =
      announced-notified fl node a pre post ((quiet, below) ∷ (since, above) ∷ polls) d on
      ∙ rule_notified_once a quiet since below above v polls w e calm later start held
