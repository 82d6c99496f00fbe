-- ===== src/Scheduler/Reports/Runs/Tests.antt =====
-- The theorems of the combined report at concrete sections.
use bastion_hub.Prelude.{ℕ, ◌≡◌, refl, List, [], ◌∷◌, Text, codes}
use bastion_hub.Scheduler.Reports.{
  Section, track_backup_start, queue_backup_report, flush_backup_reports, merge, all_targets,
  all_results,
}
use bastion_hub.Scheduler.Reports.Runs.{
  Happening, starts, ends, fires, late_flush, run, happen, idle_reports, accounted, ended, concat,
  reports_accounted, reports_sent,
}
use bastion_hub.Scheduler.Reports.Merge.{merge_exact, has_target, DistinctTargets}

abbrev nas : Text × Text
nas = (codes "t1", codes "NAS")

abbrev first : Section ℕ Text
first = record { results = 1 ∷ []; targets = nas ∷ [] }

abbrev second : Section ℕ Text
second = record { results = 2 ∷ 3 ∷ []; targets = nas ∷ (codes "t2", codes "S3") ∷ [] }

-- Two batches that overlap; the timer of the first was stopped too late.
abbrev overlapping : List (Happening ℕ Text)
overlapping = starts ∷ starts ∷ ends first ∷ late_flush ∷ ends second ∷ []

reports_accounted_example : accounted (run overlapping (idle_reports, [])) ≡ ended overlapping
reports_accounted_example = reports_accounted overlapping

reports_sent_example :
    concat (happen fires (run overlapping (idle_reports, []))).1 ≡ ended overlapping
unfolding run happen track_backup_start queue_backup_report flush_backup_reports
reports_sent_example = reports_sent overlapping refl

merge_exact_example :
    DistinctTargets (merge (first ∷ second ∷ [])).targets
    × (has_target (codes "t2") (merge (first ∷ second ∷ [])).targets
        ≡ has_target (codes "t2") (all_targets (first ∷ second ∷ [])))
    × ((merge (first ∷ second ∷ [])).results ≡ all_results (first ∷ second ∷ []))
merge_exact_example = merge_exact (first ∷ second ∷ []) (codes "t2")
