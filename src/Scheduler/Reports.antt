-- ===== src/Scheduler/Reports.antt =====
-- master/internal/scheduler/scheduler.go: the combined backup report, behind reportMu. `R` is the type of
-- unit results, and a target is its id with the rest of its data, of type `D`.
pub mod Runs
pub mod Merge
use bastion_hub.Prelude.{
  ℕ, suc, ◌+◌, ◌-◌, ◌≡◌, Bool, true, false, ◌||◌, not, List, [], ◌∷◌, ◌++◌, Text, text_eq, ltb,
  if◌then◌else◌,
}

-- backupReportSection
pub record Section (R D : Type 0) : Type 0 where
  pub results : List R
  pub targets : List (Text × D)

-- The fields of Scheduler behind reportMu; `timer_armed` is a reportTimer that has not fired yet.
-- `in_flight` never falls below 0: a batch is counted before it starts.
pub record Reports (R D : Type 0) : Type 0 where
  pub has_notifier : Bool
  pub pending : List (Section R D)
  pub timer_armed : Bool
  pub in_flight : ℕ

abbrev pub seen_id : Text → List Text → Bool
seen_id id [] = false
seen_id id (j ∷ seen) = text_eq j id || seen_id id seen

-- The inner loop of flushBackupReports: targets not seen before.
pub new_targets : {D : Type 0} → List Text → List (Text × D) → List (Text × D)
new_targets seen [] = []
new_targets seen ((id, d) ∷ ts) =
    let fresh = (id, d) ∷ new_targets (id ∷ seen) ts in
    let rest = new_targets seen ts in if seen_id id seen then rest else fresh

module _ {R D : Type 0} where
  pub track_backup_start : Reports R D → Reports R D
  track_backup_start r = record r { in_flight = suc r.in_flight }

  pub queue_backup_report : Section R D → Reports R D → Reports R D
  queue_backup_report section r =
      let left = r.in_flight - 1 in
      if not r.has_notifier
      then record r { in_flight = left }
      else if ltb 0 left
      then record r { in_flight = left; pending = r.pending ++ section ∷ [] }
      else record r { in_flight = left; pending = r.pending ++ section ∷ []; timer_armed = true }

  abbrev pub all_targets : List (Section R D) → List (Text × D)
  all_targets [] = []
  all_targets (s ∷ sections) = s.targets ++ all_targets sections

  abbrev pub all_results : List (Section R D) → List R
  all_results [] = []
  all_results (s ∷ sections) = s.results ++ all_results sections

  -- The merged report of the pending sections.
  pub merge : List (Section R D) → Section R D
  unfolding new_targets
  merge sections = record {
    results = all_results sections;
    targets = new_targets [] (all_targets sections);
  }

  -- flushBackupReports: the sections that the one message merges, if one is sent.
  pub flush_backup_reports : Reports R D → Reports R D × List (Section R D)
  flush_backup_reports r = if ltb 0 r.in_flight then (r, []) else elim r.pending [
    | [] ↦ (r, [])
    | _ ↦ (record r { pending = []; timer_armed = false }, if r.has_notifier then r.pending else [])
  ]
