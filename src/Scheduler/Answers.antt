-- ===== src/Scheduler/Answers.antt =====
-- master/internal/scheduler/scheduler.go and shared/proto/messages.go: what the update of a node's containers
-- meets, counts and does.
use bastion_hub.Prelude.{
  ℕ, Bool, false, ◌&&◌, ◌||◌, not, Option, List, [], ◌∷◌, ◌++◌, map, Text, codes, trim_space,
  to_lower, has_prefix, if◌then◌else◌,
}
use bastion_hub.Scheduler.Policy.{ScanItem}
use bastion_hub.Scheduler.Reconcile.{holds}

-- proto.ContainerResult
pub record ContainerResult : Type 0 where
  pub ok : Bool
  pub err : Text
  pub updated : List Text
  pub unchanged : List Text
  pub skipped : List Text
  pub failed : List (Text × Text)
  pub details : List (Text × Text)

-- The reply to a request, or the error of updateScannedContainers or upgradeScannedContainer.
pub data Answer : Type 0 where
  answered : ContainerResult → Answer
  broke : Text → Answer

pub data Scan : Type 0 where
  scanned_items : List ScanItem → Scan
  scan_failed : Text → Scan

-- What a run meets: the version that GetNode gives, the scan, whether its result could be stored,
-- ContainerIDByName, and the agent's replies.
pub record NodeEnv : Type 0 where
  pub version : Option Text
  pub scan : Scan
  pub cache_saved : Bool
  pub id_by_name : Text → Text
  pub upgrade : Text → Text → Answer
  pub update : List Text → Answer

-- What a run asks for, in order; a request stands here also when its sending fails.
pub data Effect : Type 0 where
  invalidate_scan : Effect
  invalidate_containers : List Text → Effect
  upgrade_sent : Text → Text → Effect
  update_sent : List Text → Effect

pub record UpgradedImage : Type 0 where
  pub name : Text
  pub from : Text
  pub to : Text

-- containerUpdateOutcome
pub record Outcome : Type 0 where
  pub succeeded : Bool
  pub unavailable : Bool
  pub scanned : ℕ
  pub candidates : ℕ
  pub unknown : ℕ
  pub updated : ℕ
  pub updated_names : List Text
  pub upgraded : List UpgradedImage
  pub unchanged : ℕ
  pub skipped : ℕ
  pub failed : ℕ
  pub failures : List Text
  pub scan_complete : Bool
  pub relinked : List (Text × Text)
  pub removed : List Text

abbrev pub no_outcome : Outcome
no_outcome = record {
  succeeded = false;
  unavailable = false;
  scanned = 0;
  candidates = 0;
  unknown = 0;
  updated = 0;
  updated_names = [];
  upgraded = [];
  unchanged = 0;
  skipped = 0;
  failed = 0;
  failures = [];
  scan_complete = false;
  relinked = [];
  removed = [];
}

abbrev pub State : Type 0
State = Outcome × List Effect

abbrev pub fail : Text → Outcome → Outcome
fail reason out = record out { failures = out.failures ++ reason ∷ [] }

-- The details that containerResultFailures adds.
unfoldable pub failed_details : List (Text × Text) → List (Text × Text) → List (Text × Text)
failed_details failed [] = []
failed_details failed ((name, detail) ∷ details) =
    let rest = failed_details failed details in
    let lower = to_lower (trim_space detail) in
    if not (holds name (map (λ e. e.0) failed))
      && (has_prefix lower (codes "error:") || has_prefix lower (codes "failed:"))
    then (name, trim_space detail) ∷ rest
    else rest

unfoldable pub container_result_failures : ContainerResult → List (Text × Text)
unfolding failed_details
container_result_failures res = res.failed ++ failed_details res.failed res.details
