-- ===== src/Backup/Run.antt =====
-- master/internal/backup/service.go: runBackup, a backup from the agent's archive to its targets.
pub mod Outcome
mod Tests
use bastion_hub.Prelude.{
  ℕ, ◌+◌, Bool, true, false, ◌&&◌, not, List, [], ◌∷◌, ◌++◌, Text, text_eq, codes, lookup, insert,
  length, ltb, Option, none, some, if◌then◌else◌,
}
use bastion_hub.Backup.Rows.{Backup, update_backup}
use bastion_hub.Backup.Retention.{RetentionCfg, apply_retention}
use bastion_hub.Backup.Targets.{
  BackupTarget, UnitResult, S3UploadConfig, split_target_ids, all_false, ids_of,
}

pub record BackupResult : Type 0 where
  pub ok : Bool
  pub size : ℕ
  pub err : Text
  pub manifest : Text

-- What becomes of a request to the agent: Send fails, the channel closes, eight hours pass, or the agent
-- answers.
pub data AgentAnswer : Type 0 where
  unreachable : Text → AgentAnswer
  disconnected : AgentAnswer
  timed_out : AgentAnswer
  answered : BackupResult → AgentAnswer

pub data Event : Type 0 where
  asked : Text → Option S3UploadConfig → Event
  removed_stage : Text → Event
  deleted_archives : List Backup → Event
  updated : Backup → Event

pub record State : Type 0 where
  pub table : List Backup
  pub events : List Event

unfoldable pub emit : Event → State → State
emit e s = record s { events = s.events ++ e ∷ [] }

abbrev pub no_result : BackupResult
no_result = record { ok = false; size = 0; err = []; manifest = [] }

-- runAgentBackup: the result and the error
unfoldable pub run_agent_backup : AgentAnswer → BackupResult × Option Text
run_agent_backup (unreachable e) = (no_result, some (codes "node unreachable: " ++ e))
run_agent_backup disconnected = (no_result, some (codes "agent disconnected"))
run_agent_backup timed_out = (no_result, some (codes "timeout"))
run_agent_backup (answered r) =
    if r.ok
    then (r, none)
    else if not (text_eq r.err [])
    then (r, some r.err)
    else (r, some (codes "agent backup failed"))

-- The first request and, where it had a direct upload and failed, the fallback: the id of the target
-- that has the archive already or none, the result, the error and the state.
unfoldable pub second_request :
    Backup
    → Text
    → Option Text
    → BackupResult
    → AgentAnswer
    → State
    → Text × BackupResult × Option Text × State
unfolding emit run_agent_backup
second_request b target none r second s = (target, r, none, s)
second_request b target (some e) r second s =
    let s' =
      emit (asked (codes "backup:" ++ b.id ++ codes ":fallback") none)
        (emit (removed_stage b.stage_path) s) in
    ([], (run_agent_backup second).0, (run_agent_backup second).1, s')

unfoldable pub request_archive :
    Backup
    → Option (Text × S3UploadConfig)
    → AgentAnswer
    → AgentAnswer
    → State
    → Text × BackupResult × Option Text × State
unfolding second_request
request_archive b none first second s = (
  [],
  (run_agent_backup first).0,
  (run_agent_backup first).1,
  emit (asked (codes "backup:" ++ b.id) none) s,
)
request_archive b (some (target, cfg)) first second s =
    second_request b target (run_agent_backup first).1 (run_agent_backup first).0 second
      (emit (asked (codes "backup:" ++ b.id) (some cfg)) s)

-- The row once the archive is there or has failed; `stat` is the size of the staged file.
unfoldable pub archive_row : Option ℕ → BackupResult → Option Text → Backup → Backup
archive_row stat r (some e) b = record b { status = codes "failed"; error = e }
archive_row stat r none b =
    let on_disk : ℕ = elim stat [ none ↦ b.size | some n ↦ n ] in
    record b {
      size = (if ltb 0 r.size then r.size else on_disk);
      status = codes "ok";
      manifest = (if ltb 0 (length r.manifest) then r.manifest else b.manifest);
    }

-- The end of a push, by its error: TargetOK and pushErrs.
unfoldable pub record_push :
    Option Text → BackupTarget → List (Text × Bool) × List Text → List (Text × Bool) × List Text
record_push (some e) t (oks, errs) =
    (insert t.id false oks, errs ++ (t.name ++ codes ": " ++ e) ∷ [])
record_push none t (oks, errs) = (insert t.id true oks, errs)

-- The goroutines, in the order in which they end; `push id` is the error of pushArchiveReliable to a
-- target, if it has one.
unfoldable pub push_all :
    (Text → Option Text)
    → List BackupTarget
    → List (Text × Bool) × List Text
    → List (Text × Bool) × List Text
unfolding record_push
push_all push [] x = x
push_all push (t ∷ ts) x = push_all push ts (record_push (push t.id) t x)

-- strings.Join(errs, "；")
unfoldable pub join_errs : List Text → Text
join_errs [] = []
join_errs (e ∷ []) = e
join_errs (e ∷ f ∷ es) = e ++ codes "；" ++ join_errs (f ∷ es)

unfoldable pub note_errs : List Text → Backup → Backup
unfolding join_errs
note_errs [] b = b
note_errs (e ∷ es) b = record b { error = codes "部分目标推送失败：" ++ join_errs (e ∷ es) }

abbrev pub save : Backup → State → State
save b s = record s { table = update_backup b s.table }

module _ (rc : RetentionCfg) (now : ℕ) where
  unfoldable pub retire : Text → State → State
  unfolding emit
  retire node s =
      let (table, goes) = apply_retention rc now node s.table in
      emit (deleted_archives goes) (record s { table = table })

  -- The part after the pushes: `n` is the number of targets.
  unfoldable pub after_pushes :
      ℕ → Backup → UnitResult → List (Text × Bool) × List Text → State → UnitResult × State
  unfolding retire note_errs
  after_pushes n b ur (oks, errs) s =
      let b' = note_errs errs b in
      let s' = if ltb 0 (length errs) then save b' s else s in
      let s'' =
        if ltb 0 n && ltb (length errs) n then emit (removed_stage b.stage_path) s' else s' in
      (record ur { tar_ok = true; target_ok = oks }, emit (updated b') (retire b.node_id s''))

  -- The part after the archive: `tgts` as they are listed, and `done` in the order in which their
  -- pushes end.
  unfoldable pub deliver :
      (Text → Option Text)
      → List BackupTarget
      → List BackupTarget
      → Text
      → Option Text
      → Backup
      → UnitResult
      → State
      → UnitResult × State
  unfolding after_pushes push_all
  deliver push tgts done direct (some e) b ur s =
      (record ur { err = b.error }, emit (updated b) (emit (removed_stage b.stage_path) s))
  deliver push tgts done direct none b ur s =
      let pushed = after_pushes (length tgts) b ur (push_all push done (ur.target_ok, [])) s in
      if not (text_eq direct [])
      then (
        record ur { target_ok = insert direct true ur.target_ok; tar_ok = true },
        emit (updated b) (retire b.node_id s),
      )
      else pushed

  -- runBackup, from directS3UploadConfig's result on: the unit's result, the error and the state
  unfoldable pub run_backup :
      (Text → Option Text)
      → List BackupTarget
      → List BackupTarget
      → Option (Text × S3UploadConfig)
      → AgentAnswer
      → AgentAnswer
      → Option ℕ
      → Text
      → Backup
      → State
      → UnitResult × Option Text × State
  unfolding request_archive archive_row deliver all_false split_target_ids
  run_backup push tgts done direct first second stat node_name b s =
      let ur : UnitResult = record {
        node_id = b.node_id;
        node_name = node_name;
        tar_ok = false;
        err = [];
        target_ok = all_false (ids_of tgts) [];
        target_ids = split_target_ids b.target;
      } in
      let (target, r, run_err, s') = request_archive b direct first second s in
      let b' = archive_row stat r run_err b in
      let (ur', s'') = deliver push tgts done target run_err b' ur (save b' s') in
      (ur', run_err, s'')
