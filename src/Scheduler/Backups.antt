-- ===== src/Scheduler/Backups.antt =====
-- master/internal/scheduler/scheduler.go: the units of a backup schedule (runBackup), and the batch that
-- runs them with its retries (runBackupBatch, retryOfflineUnits).
pub mod Selection
pub mod Retries
mod Tests
use bastion_hub.Prelude.{
  ℕ, zero, suc, ◌+◌, ◌≡◌, Bool, true, false, ◌&&◌, ◌||◌, not, Option, none, some, List, [], ◌∷◌,
  ◌++◌, map, Text, text_eq, any, ltb, if◌then◌else◌,
}

-- backupTarget
pub record BackupTarget : Type 0 where
  pub node_id : Text
  pub container : Text
  pub name : Text

-- the fields of backupCfg that choose the units and the targets
pub record BackupCfg : Type 0 where
  pub paths : List Text
  pub container : Text
  pub containers : List BackupTarget
  pub incremental_containers : List BackupTarget
  pub node_ids : List Text
  pub target_id : Text
  pub target_ids : List Text

pub record BackupUnit : Type 0 where
  pub node_id : Text
  pub container : Text
  pub name : Text
  pub paths : List Text
  pub incremental : Bool

abbrev pub is_empty {ℓ} : {A : Type ℓ} → List A → Bool
is_empty [] = true
is_empty (x ∷ xs) = false

-- `id_by_name node name` is Store.ContainerIDByName: empty for a container that is not in the live
-- inventory.
module _ (id_by_name : Text → Text → Text) where
  -- The reference that appendContainerUnits backs up; empty for an entry that it skips.
  pub reference : BackupTarget → Text
  reference c =
      if text_eq c.node_id []
      then []
      else if text_eq c.name []
      then c.container
      else id_by_name c.node_id c.name

  pub append_container_units : Bool → List BackupTarget → List BackupUnit → List BackupUnit
  append_container_units incremental [] units = units
  append_container_units incremental (c ∷ entries) units =
      append_container_units incremental entries (
        if text_eq (reference c) []
        then units
        else units
          ++ record {
            node_id = c.node_id;
            container = reference c;
            name = c.name;
            paths = [];
            incremental = incremental;
          }
            ∷ [])

  -- The units of runBackup; `schedule_node` is the schedule's own NodeID.
  pub backup_units : Text → BackupCfg → List BackupUnit
  unfolding append_container_units
  backup_units schedule_node cfg =
      let full = append_container_units false cfg.containers [] in
      let both = append_container_units true cfg.incremental_containers full in
      let legacy =
        if is_empty cfg.containers
          && (is_empty cfg.incremental_containers
              && (not (text_eq cfg.container []) && not (text_eq schedule_node [])))
        then both
          ++ record {
            node_id = schedule_node;
            container = cfg.container;
            name = [];
            paths = [];
            incremental = false;
          }
            ∷ []
        else both in
      if is_empty legacy && not (is_empty cfg.paths)
      then map
          (λ nid. record {
            node_id = nid;
            container = [];
            name = [];
            paths = cfg.paths;
            incremental = false;
          })
          (if is_empty cfg.node_ids && not (text_eq schedule_node [])
            then schedule_node ∷ []
            else cfg.node_ids)
      else legacy

-- The ids of the storage targets, with the single one of older schedules.
pub storage_targets : BackupCfg → List Text
storage_targets cfg =
    if is_empty cfg.target_ids && not (text_eq cfg.target_id [])
    then cfg.target_id ∷ []
    else cfg.target_ids

-- The error of a unit's last run.
pub data RunError : Type 0 where
  node_offline agent_disconnected other_error : RunError

abbrev pub retryable : Option RunError → Bool
retryable none = false
retryable (some node_offline) = true
retryable (some agent_disconnected) = true
retryable (some other_error) = false

-- One unit of a batch with the error of its last run and the number of its runs.
pub record Slot : Type 0 where
  pub unit_of : BackupUnit
  pub error : Option RunError
  pub runs : ℕ

-- What a round of the retry loop meets: the clock, the nodes that are online, and how a run ends.
pub record Round : Type 0 where
  pub now : ℕ
  pub is_online : Text → Bool
  pub outcome : BackupUnit → Option RunError

-- One pass over the units.
pub retry_pass : Round → List Slot → List Slot
retry_pass r [] = []
retry_pass r (s ∷ slots) =
    (if retryable s.error && r.is_online s.unit_of.node_id
      then record s { error = r.outcome s.unit_of; runs = suc s.runs }
      else s)
    ∷ retry_pass r slots

abbrev pub pending : List Slot → Bool
pending slots = any (λ s. retryable s.error) slots

-- retryOfflineUnits with the rounds from the n-th on; `none` when the fuel runs out.
pub retry_offline_units : ℕ → ℕ → (ℕ → Round) → ℕ → List Slot → Option (List Slot)
unfolding retry_pass
retry_offline_units zero deadline rounds n slots = none
retry_offline_units (suc fuel) deadline rounds n slots =
    let after = retry_pass (rounds n) slots in
    let rest = retry_offline_units fuel deadline rounds (suc n) after in
    if ltb (rounds n).now deadline then (if pending after then rest else some after) else some slots

-- seconds
abbrev pub offline_retry_window : ℕ
offline_retry_window = 7200

abbrev pub offline_retry_step : ℕ
offline_retry_step = 600

-- The first pass of runBackupBatch: each unit runs once, in order.
pub first_pass : (BackupUnit → Option RunError) → List BackupUnit → List Slot
first_pass outcome [] = []
first_pass outcome (u ∷ units) =
    record { unit_of = u; error = outcome u; runs = 1 } ∷ first_pass outcome units
