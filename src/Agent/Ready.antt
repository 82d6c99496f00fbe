-- ===== src/Agent/Ready.antt =====
-- agent/internal/agent/docker.go: waitContainerReadyStable, the wait for an updated container.
pub mod Window
mod Tests
use mathlib.Core.List.{reverse}
use bastion_hub.Prelude.{
  ℕ, ◌+◌, ◌*◌, Bool, true, false, not, ◌||◌, ◌==◌, leb, List, [], ◌∷◌, ◌++◌, Text, codes, text_eq,
  Option, none, some, if◌then◌else◌,
}

-- containerRuntime
pub record Runtime : Type 0 where
  pub image_id : Text
  pub running : Bool
  pub status : Text
  pub health : Text
  pub error : Text

-- What inspectContainerRuntime answers.
pub data Inspected : Type 0 where
  failed : Text → Inspected
  seen : Runtime → Inspected

-- A turn of the loop: the answer, the time, which is read once in a turn, and the context's error if
-- it ends before the timer.
pub record Poll : Type 0 where
  pub answer : Inspected
  pub now : ℕ
  pub ended : Option Text

-- A wait goes on with stableSince, or is over.
pub data Wait : Type 0 where
  waits : Option ℕ → Wait
  fails : Text → Wait
  ready : Runtime → Wait

-- The five seconds of noHealthStabilityWindow, in nanoseconds
abbrev pub no_health_stability_window : ℕ
no_health_stability_window = 5000000000

unfoldable pub since_or : Option ℕ → ℕ → ℕ
since_or none now = now
since_or (some t) now = t

-- strings.Trim with ": "
unfoldable pub trim_colons : Text → Text
trim_colons [] = []
trim_colons (c ∷ s) = if c == b':' || c == b' ' then trim_colons s else c ∷ s

unfoldable pub not_running : Text → Runtime → Text
unfolding trim_colons
not_running ref s =
    let detail = if text_eq s.error [] then s.status else s.status ++ codes ": " ++ s.error in
    let trimmed = reverse (trim_colons (reverse (trim_colons detail))) in
    codes "container " ++ ref ++ codes " is not running (" ++ trimmed ++ codes ")"

-- A container without a health check.
unfoldable pub judge_stable : ℕ → ℕ → ℕ → Runtime → Wait
judge_stable stable_for since now s =
    if stable_for == 0 || leb (since + stable_for) now then ready s else waits (some since)

-- A running container, by its health.
unfoldable pub judge_health : ℕ → Text → Option ℕ → ℕ → Runtime → Wait
unfolding judge_stable since_or
judge_health stable_for ref since now s =
    if text_eq s.health (codes "healthy")
    then ready s
    else if text_eq s.health (codes "unhealthy")
    then fails (codes "container " ++ ref ++ codes " is unhealthy after update")
    else if text_eq s.health []
    then judge_stable stable_for (since_or since now) now s
    else waits none

unfoldable pub judge : ℕ → Text → Option ℕ → ℕ → Inspected → Wait
unfolding judge_health not_running
judge stable_for ref since now (failed e) = fails e
judge stable_for ref since now (seen s) =
    if s.running then judge_health stable_for ref since now s else fails (not_running ref s)

-- The wait for the timer or the context, and the next turn.
unfoldable pub turn_over : Wait → Text → Option Text → (Option ℕ → Wait) → Wait
turn_over (fails e) ref ended next = fails e
turn_over (ready s) ref ended next = ready s
turn_over (waits since) ref (some e) next =
    fails (codes "container " ++ ref ++ codes " did not become healthy: " ++ e)
turn_over (waits since) ref none next = next since

-- waitContainerReadyStable, over the turns that it takes
unfoldable pub wait_stable : ℕ → Text → List Poll → Option ℕ → Wait
unfolding judge turn_over
wait_stable stable_for ref [] since = waits since
wait_stable stable_for ref (p ∷ ps) since =
    turn_over (judge stable_for ref since p.now p.answer) ref p.ended
      (wait_stable stable_for ref ps)

-- waitContainerReady
unfoldable pub wait_container_ready : Text → List Poll → Wait
unfolding wait_stable
wait_container_ready ref polls = wait_stable no_health_stability_window ref polls none
