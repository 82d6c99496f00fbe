-- ===== src/Backup/Retention/Tests.antt =====
-- Two groups of backups under a count of one.
use bastion_hub.Prelude.{◌≡◌, refl, pos, negsuc, List, [], ◌∷◌, codes, text_eq, drop}
use bastion_hub.Backup.Rows.{Backup, list_backups, newest_first, insert_newer, delete_backup}
use bastion_hub.Backup.Retention.{RetentionCfg, version_key, retain, apply_retention}
use bastion_hub.Backup.Retention.Order.{NewestFirst}
use bastion_hub.Backup.Retention.Versions.{of_group, without, allowance, apply_retention_exact}

abbrev good : Backup
good = record {
  id = codes "2";
  node_id = codes "n";
  name = [];
  paths = [];
  container = codes "c2";
  container_name = codes "db";
  size = 5;
  target = codes "t1";
  stage_path = codes "/stage/2";
  status = codes "ok";
  error = [];
  manifest = [];
  created_at = 200;
}

abbrev newer : Backup
newer = record good { id = codes "3"; status = codes "failed"; created_at = 300 }

abbrev other : Backup
other = record good { id = codes "1"; container_name = codes "web"; created_at = 100 }

abbrev rows : List Backup
rows = newer ∷ good ∷ other ∷ []

abbrev newest_only : RetentionCfg
newest_only = record { keep_count = pos 1; keep_days = pos 0 }

-- A negative count is no count, and no days are kept: everything goes.
negative_drops_all :
    apply_retention (record { keep_count = negsuc 0; keep_days = pos 0 }) 400 (codes "n") rows
    ≡ ([], rows)
unfolding apply_retention retain version_key list_backups newest_first insert_newer delete_backup
    text_eq
negative_drops_all = refl

apply_retention_exact_example :
    NewestFirst (of_group (codes "db") (list_backups (codes "n") rows))
    × ((apply_retention newest_only 400 (codes "n") rows).0
        ≡ without (apply_retention newest_only 400 (codes "n") rows).1 rows)
    × (of_group (codes "db") (apply_retention newest_only 400 (codes "n") rows).1
        ≡ drop
            (allowance newest_only 400 (of_group (codes "db") (list_backups (codes "n") rows)))
            (of_group (codes "db") (list_backups (codes "n") rows)))
apply_retention_exact_example = apply_retention_exact newest_only 400 (codes "n") rows (codes "db")
