-- ===== src/Backup/Restore/Tests.antt =====
-- Two restores to one node: one that makes a container, and one whose archive is gone.
use bastion_hub.Prelude.{
  ◌≡◌, ◌+◌, refl, true, false, none, [], ◌∷◌, ◌++◌, Text, codes, text_eq, Option, All, filter,
  length, map,
}
use bastion_hub.Backup.Rows.{Backup}
use bastion_hub.Backup.Restore.{progress, result, Turn, State, run_node_restore}
use bastion_hub.Backup.Restore.Drain.{restored, Ended}
use bastion_hub.Backup.Restore.Tally.{Fresh, final_row, final_row-id, run_node_restore_exact}

abbrev archive : Backup
archive = record {
  id = codes "b1";
  node_id = codes "a";
  name = [];
  paths = [];
  container = codes "c1";
  container_name = codes "web";
  size = 9;
  target = codes "t1";
  stage_path = codes "/stage/1";
  status = codes "ok";
  error = [];
  manifest = [];
  created_at = 1000;
}

abbrev made : Turn
made = record {
  task = record { b = archive; name = codes "web" };
  new_id = codes "j1";
  started = 5;
  ensured = true;
  send_err = none;
  messages =
      progress (codes "download") 4 9 44
      ∷ result (record { ok = true; err = []; detail = []; recreated = true })
      ∷ [];
  finished = 8;
}

abbrev gone : Turn
gone = record made { new_id = codes "j2"; ensured = false }

abbrev empty : State
empty = record { table = []; events = [] }

abbrev no_image : Text → Option Text
no_image m = none

made_and_gone-Fresh : Fresh no_image (codes "n") [] [] (made ∷ gone ∷ []) []
unfolding text_eq
made_and_gone-Fresh =
    ((refl, refl), ((refl, rw (final_row-id no_image (codes "n") [] [] made) refl), tt))

run_node_restore_exact_example :
    (run_node_restore no_image (codes "n") [] [] (made ∷ gone ∷ []) 0 0 empty).0
      ≡ length (filter (λ t. restored t.ensured t.send_err t.messages) (made ∷ gone ∷ []))
    × (run_node_restore no_image (codes "n") [] [] (made ∷ gone ∷ []) 0 0 empty).0
        + (run_node_restore no_image (codes "n") [] [] (made ∷ gone ∷ []) 0 0 empty).1
      ≡ length (made ∷ gone ∷ [])
    × (run_node_restore no_image (codes "n") [] [] (made ∷ gone ∷ []) 0 0 empty).2.table
      ≡ [] ++ map (final_row no_image (codes "n") [] []) (made ∷ gone ∷ [])
    × All Ended (map (final_row no_image (codes "n") [] []) (made ∷ gone ∷ []))
run_node_restore_exact_example =
    run_node_restore_exact no_image (codes "n") [] [] (made ∷ gone ∷ []) empty made_and_gone-Fresh
