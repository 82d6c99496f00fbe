-- ===== src/Backup/Reaper/Tests.antt =====
-- A reap while a job ends.
use bastion_hub.Prelude.{◌*◌, ◌≡◌, refl, true, List, [], ◌∷◌, map, codes, text_eq, filter}
use bastion_hub.Backup.Rows.{Backup}
use bastion_hub.Backup.Reaper.{is_stale, load_reaper_cfg, reap_stale_backups}
use bastion_hub.Backup.Reaper.Stale.{reap_stale_backups_exact, ended_row, listed}

abbrev orphan : Backup
orphan = record {
  id = codes "1";
  node_id = codes "a";
  name = [];
  paths = [];
  container = codes "c1";
  container_name = codes "web";
  size = 0;
  target = codes "t1";
  stage_path = codes "/stage/1";
  status = codes "running";
  error = [];
  manifest = [];
  created_at = 1000;
}

abbrev slow : Backup
slow = record orphan { id = codes "2"; created_at = 2000 }

-- The slow job ends well between the query and the updates.
abbrev ends : List Backup → List Backup
ends rows = orphan ∷ record slow { status = codes "ok" } ∷ []

-- By the default bound of two hours a job that may run for eight is stale after two.
slow-is_stale : is_stale 9201 (load_reaper_cfg 0 * 60) slow ≡ true
unfolding load_reaper_cfg text_eq
slow-is_stale = refl

reap_stale_backups_exact_example :
    (reap_stale_backups (codes "reaped") 9201 7200 ends (orphan ∷ slow ∷ [])).1
    ≡ map
        (ended_row (codes "reaped") (listed (filter (is_stale 9201 7200) (orphan ∷ slow ∷ []))))
        (orphan ∷ record slow { status = codes "ok" } ∷ [])
reap_stale_backups_exact_example =
    reap_stale_backups_exact (codes "reaped") 9201 7200 ends (orphan ∷ slow ∷ [])
