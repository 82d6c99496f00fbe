-- ===== src/Backup/Report/Unlisted.antt =====
-- A unit whose targets are no columns of its report.
use bastion_hub.Prelude.{
  ◌≡◌, refl, ap, ◌∙◌, arith, true, false, List, [], ◌∷◌, text_eq, length, any, map, All,
  text_eq_refl, lookup, codes, ◌==◌,
}
use bastion_hub.Backup.Targets.{UnitResult}
use bastion_hub.Backup.Report.{TargetInfo, unit_target_applies, aggregate, row_of, report_rows}
use bastion_hub.Backup.Report.Cells.{cells, row_of-green}

unknown_cells :
    (u : UnitResult) (cols : List TargetInfo)
    → (length u.target_ids == 0) ≡ false
    → All (λ t. any (λ id. text_eq id t.id) u.target_ids ≡ false) cols
    → cells u cols ≡ []
unfolding unit_target_applies
unknown_cells u [] h k = refl
unknown_cells u (t ∷ cols) h k = ground (arith, h, k.0, unknown_cells u cols h k.1)

-- If the archive of a unit was made, and the unit lists targets of which none is a column of the report,
-- the report on it has one row, and this row is green, whatever became of the archive at the targets.
pub unknown_targets_green :
    (u : UnitResult) (targets : List TargetInfo)
    → u.tar_ok ≡ true
    → (length u.target_ids == 0) ≡ false
    → All (λ t. any (λ id. text_eq id t.id) u.target_ids ≡ false) targets
    → map (λ r. text_eq r.status (codes "🟢")) (report_rows (u ∷ []) targets) ≡ true ∷ []
unfolding report_rows aggregate lookup
unknown_targets_green u targets made listed unknown = by_columns targets unknown
  where
    green :
        (cols : List TargetInfo)
        → cells u cols ≡ []
        → text_eq (row_of (aggregate cols (u ∷ []) [] []).0 u.node_id).status (codes "🟢") ≡ true
    green cols nothing =
        row_of-green cols (u ∷ []) u.node_id ∙ rw (text_eq_refl u.node_id, made, nothing) refl

    by_columns :
        (targets : List TargetInfo)
        → All (λ t. any (λ id. text_eq id t.id) u.target_ids ≡ false) targets
        → map (λ r. text_eq r.status (codes "🟢")) (report_rows (u ∷ []) targets) ≡ true ∷ []
    by_columns [] k =
        ap (λ b. b ∷ [])
          (green (record { id = []; type = []; name = codes "备份" } ∷ [])
            (rw (text_eq_refl []) refl))
    by_columns (t ∷ ts) k =
        let not_empty : (length (t ∷ ts) == 0) ≡ false = ground arith in
        rw not_empty (ap (λ b. b ∷ []) (green (t ∷ ts) (unknown_cells u (t ∷ ts) listed k)))
