-- ===== src/Backup/Restic.antt =====
-- master/internal/backup/service.go: the restic backup of a container, with the command that it runs on
-- the node.
pub mod Row
mod Tests
use bastion_hub.Prelude.{
  ℕ, suc, ◌-◌, Bool, true, false, ◌||◌, List, [], ◌∷◌, ◌++◌, Text, text_eq, codes, length, leb,
  drop, ◌==◌, decimal, trim_space, insert, ℤ, pos, negsuc, show_int, is_zero, Option, none, some,
  if◌then◌else◌,
}
use bastion_hub.Backup.Rows.{Backup, create_backup, update_backup, delete_backup}
use bastion_hub.Backup.Targets.{UnitResult}

-- What comes out of the request's channel, or ends the wait for it.
pub data ExecMessage : Type 0 where
  closed : ExecMessage
  output : Text → ℤ → Bool → ExecMessage
  other : ExecMessage
  cancelled : Text → ExecMessage

pub data ExecErr : Type 0 where
  offline : ExecErr
  disconnected : ExecErr
  failed : Text → ExecErr

unfoldable pub err_text : ExecErr → Text
err_text offline = codes "agent offline"
err_text disconnected = codes "agent disconnected"
err_text (failed e) = e

-- The loop of execAgentSync, with the output so far; the timer ends it when no message is left.
unfoldable pub drain : Text → List ExecMessage → Text × ℤ × Option ExecErr
drain sb [] = (sb, pos 0, some (failed (codes "执行超时")))
drain sb (closed ∷ ms) = (sb, pos 0, some disconnected)
drain sb (output chunk exit done ∷ ms) =
    let rest = drain (sb ++ chunk) ms in if done then (sb ++ chunk, exit, none) else rest
drain sb (other ∷ ms) = drain sb ms
drain sb (cancelled e ∷ ms) = (sb, pos 0, some (failed e))

-- execAgentSync, with the error of Encode or Send
unfoldable pub exec_agent_sync : Option ExecErr → List ExecMessage → Text × ℤ × Option ExecErr
unfolding drain
exec_agent_sync (some e) ms = ([], negsuc 0, some e)
exec_agent_sync none ms = drain [] ms

unfoldable pub tail_string : Text → ℕ → Text
tail_string s n = if n == 0 || leb (length s) n then s else drop (length s - n) s

abbrev pub restic_incremental_target_id : Text
restic_incremental_target_id = codes "restic-incremental"

-- The text of a failure with its exit code.
unfoldable pub exit_error : ℤ → Text → Text
unfolding show_int
exit_error exit text =
    if text_eq text []
    then codes "restic exit " ++ show_int exit
    else codes "restic exit " ++ show_int exit ++ codes ": " ++ text

pub data ResticErr : Type 0 where
  node_not_found : ResticErr
  node_offline : ResticErr
  not_created : Text → ResticErr
  agent_disconnected : ResticErr
  backup_failed : Text → ResticErr

abbrev pub failed_unit : Text → Text → Text → UnitResult
failed_unit node_id node_name err = record {
  node_id = node_id;
  node_name = node_name;
  tar_ok = false;
  err = err;
  target_ok = (restic_incremental_target_id, false) ∷ [];
  target_ids = restic_incremental_target_id ∷ [];
}

-- `added` is parseResticAddedBytes, which reads a floating-point number.
module _ (added : Text → ℕ) where
  -- The end of RunResticContainerBackupSync, behind execAgentSync: the unit's result, the error, the
  -- table and the row that is broadcast, if one is.
  unfoldable pub finish :
      Backup
      → UnitResult
      → Text × ℤ × Option ExecErr
      → List Backup
      → UnitResult × Option ResticErr × List Backup × Option Backup
  unfolding tail_string exit_error err_text
  finish b ur (out, exit, some offline) table = (
    record ur { err = codes "node is offline" },
    some node_offline,
    delete_backup b.id table,
    none,
  )
  finish b ur (out, exit, some disconnected) table =
      (record ur { err = codes "agent disconnected" }, some agent_disconnected, table, none)
  finish b ur (out, exit, some (failed e)) table =
      let b' = record b { status = codes "failed"; error = e } in
      (record ur { err = e }, some (backup_failed e), update_backup b' table, some b')
  finish b ur (out, exit, none) table =
      let e = exit_error exit (trim_space (tail_string out 1600)) in
      let b' = record b { status = codes "failed"; error = e } in
      let b'' = record b { status = codes "ok"; size = added out } in
      if is_zero exit
      then (
        record ur {
          tar_ok = true;
          target_ok = insert restic_incremental_target_id true ur.target_ok;
        },
        none,
        update_backup b'' table,
        some b'',
      )
      else (record ur { err = e }, some (backup_failed e), update_backup b' table, some b')

  -- The same behind CreateBackup, with the table that it leaves or its error.
  unfoldable pub run_created :
      Option (List Backup)
      → Text
      → Backup
      → UnitResult
      → Text × ℤ × Option ExecErr
      → List Backup
      → UnitResult × Option ResticErr × List Backup × Option Backup
  unfolding finish
  run_created none create_err b ur exec table =
      (record ur { err = create_err }, some (not_created create_err), table, none)
  run_created (some table') create_err b ur exec table = finish b ur exec table'

  -- RunResticContainerBackupSync for a row with the names filled in: the node's name if there is the
  -- node, whether it is online, the text of CreateBackup's error and what execAgentSync returns.
  unfoldable pub run_restic_container_backup_sync :
      ℕ
      → Option Text
      → Bool
      → Text
      → Backup
      → Text × ℤ × Option ExecErr
      → List Backup
      → UnitResult × Option ResticErr × List Backup × Option Backup
  unfolding run_created
  run_restic_container_backup_sync now none online create_err b exec table =
      (failed_unit b.node_id [] (codes "node not found"), some node_not_found, table, none)
  run_restic_container_backup_sync now (some node_name) online create_err b exec table =
      let ur = failed_unit b.node_id node_name [] in
      let created = run_created (create_backup now b table) create_err b ur exec table in
      if online
      then created
      else (record ur { err = codes "node is offline" }, some node_offline, table, none)
