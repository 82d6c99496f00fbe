-- ===== src/Backup/Restic/Tests.antt =====
-- A restic backup whose agent's connection closes after the first output.
use bastion_hub.Prelude.{
  is_none, is_zero, pos, ℕ, ◌≡◌, refl, true, false, ◌&&◌, none, some, [], ◌∷◌, Text, codes, text_eq,
  if◌then◌else◌,
}
use bastion_hub.Backup.Rows.{Backup, create_backup, get_backup}
use bastion_hub.Backup.Restic.{closed, output, exec_agent_sync, run_restic_container_backup_sync}
use bastion_hub.Backup.Restic.Row.{row_status, status_of, tried, run_restic_exact}

abbrev row : Backup
row = record {
  id = codes "b1";
  node_id = codes "a";
  name = codes "nightly";
  paths = [];
  container = codes "c1";
  container_name = codes "web";
  size = 0;
  target = codes "restic-incremental";
  stage_path = [];
  status = codes "running";
  error = [];
  manifest = [];
  created_at = 1000;
}

abbrev added : Text → ℕ
added out = 0

-- The run's output is kept, but the row keeps its status.
left_running :
    status_of (
      get_backup
        (codes "b1")
        (run_restic_container_backup_sync added 5
          (some (codes "A"))
          true
          []
          row
          (exec_agent_sync none (output (codes "x") (pos 0) false ∷ closed ∷ []))
          []).2)
    ≡ some (codes "running")
unfolding run_restic_container_backup_sync exec_agent_sync create_backup get_backup text_eq
left_running = refl

run_restic_exact_example :
    (status_of (
        get_backup row.id
          (run_restic_container_backup_sync added 5
            (some (codes "A"))
            true
            []
            row
            (exec_agent_sync none (output (codes "x") (pos 0) true ∷ []))
            []).2)
      ≡ (if tried (some (codes "A")) true (create_backup 5 row [])
          then row_status
              (
                (exec_agent_sync none (output (codes "x") (pos 0) true ∷ [])).1,
                (exec_agent_sync none (output (codes "x") (pos 0) true ∷ [])).2,
              )
              row.status
          else status_of (get_backup row.id [])))
    × ((run_restic_container_backup_sync added 5
          (some (codes "A"))
          true
          []
          row
          (exec_agent_sync none (output (codes "x") (pos 0) true ∷ []))
          []).0.tar_ok
        ≡ (tried (some (codes "A")) true (create_backup 5 row [])
            && is_none (exec_agent_sync none (output (codes "x") (pos 0) true ∷ [])).2
            && is_zero (exec_agent_sync none (output (codes "x") (pos 0) true ∷ [])).1))
run_restic_exact_example =
    run_restic_exact added 5 (some (codes "A")) true [] row
      (exec_agent_sync none (output (codes "x") (pos 0) true ∷ [])) []
