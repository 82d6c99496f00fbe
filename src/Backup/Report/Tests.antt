-- ===== src/Backup/Report/Tests.antt =====
-- A report of two nodes, with a target that refused one archive.
use bastion_hub.Prelude.{
  ◌≡◌, refl, true, false, List, [], ◌∷◌, codes, text_eq, lookup, all, decimal, digits, insert, All,
  any, map,
}
use bastion_hub.Backup.Targets.{UnitResult}
use bastion_hub.Backup.Report.{TargetInfo, report_rows, aggregate, row_of, unit_target_applies}
use bastion_hub.Backup.Report.Cells.{unit_good, units_of, row_of-green}
use bastion_hub.Backup.Report.Unlisted.{unknown_targets_green}

abbrev cols : List TargetInfo
cols =
    record { id = codes "t1"; type = codes "s3"; name = codes "one" }
    ∷ record { id = codes "t2"; type = codes "vps"; name = codes "two" }
    ∷ []

abbrev good : UnitResult
good = record {
  node_id = codes "a";
  node_name = codes "A";
  tar_ok = true;
  err = [];
  target_ok = (codes "t1", true) ∷ (codes "t2", true) ∷ [];
  target_ids = [];
}

abbrev refused : UnitResult
refused = record good {
  node_id = codes "b";
  node_name = codes "B";
  target_ok = (codes "t1", true) ∷ (codes "t2", false) ∷ [];
}

two_rows :
    report_rows (good ∷ refused ∷ []) cols
    ≡ record { name = codes "A"; status = codes "🟢" }
      ∷ record { name = codes "B"; status = codes "🟡 1/2" }
      ∷ []
unfolding report_rows unit_target_applies text_eq lookup insert digits decimal
two_rows = refl

row_of-green_example :
    text_eq (row_of (aggregate cols (good ∷ refused ∷ []) [] []).0 (codes "b")).status (codes "🟢")
    ≡ all (unit_good cols) (units_of (codes "b") (good ∷ refused ∷ []))
row_of-green_example = row_of-green cols (good ∷ refused ∷ []) (codes "b")

-- The unit's only target is none of the report's columns.
abbrev nowhere : UnitResult
nowhere = record good { target_ok = (codes "t9", false) ∷ []; target_ids = codes "t9" ∷ [] }

no_column : All (λ t. any (λ id. text_eq id t.id) nowhere.target_ids ≡ false) cols
unfolding text_eq
no_column = (refl, (refl, tt))

unknown_targets_green_example :
    map (λ r. text_eq r.status (codes "🟢")) (report_rows (nowhere ∷ []) cols) ≡ true ∷ []
unknown_targets_green_example = unknown_targets_green nowhere cols refl refl no_column
