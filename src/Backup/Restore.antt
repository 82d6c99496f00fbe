-- ===== src/Backup/Restore.antt =====
-- master/internal/backup/service.go: how containers are restored to the nodes.
pub mod Drain
pub mod Tally
mod Tests
use bastion_hub.Prelude.{
  ℕ, zero, suc, ◌+◌, Bool, true, false, ◌&&◌, not, List, [], ◌∷◌, ◌++◌, Text, codes, text_eq,
  Option, none, some, ltb, if◌then◌else◌,
}
use bastion_hub.Backup.Rows.{Backup}
use bastion_hub.Backup.Jobs.{
  RestoreJob, create_restore_job, update_restore_job, update_restore_job_progress,
}

abbrev pub status_running : Text
status_running = codes "running"

abbrev pub status_ok : Text
status_ok = codes "ok"

abbrev pub status_partial : Text
status_partial = codes "partial"

abbrev pub status_failed : Text
status_failed = codes "failed"

pub record RestoreTask : Type 0 where
  pub b : Backup
  pub name : Text

pub record RestoreResult : Type 0 where
  pub ok : Bool
  pub err : Text
  pub detail : Text
  pub recreated : Bool

-- What comes out of the request's channel.
pub data Message : Type 0 where
  closed : Message
  progress : Text → ℕ → ℕ → ℕ → Message
  result : RestoreResult → Message
  other : Message

-- What a task meets: whether `ensure` finds the archive, the error of Send, the messages that come
-- before the two hours end, and the two times.
pub record Turn : Type 0 where
  pub task : RestoreTask
  pub new_id : Text
  pub started : ℕ
  pub ensured : Bool
  pub send_err : Option Text
  pub messages : List Message
  pub finished : ℕ

-- The table, and the events that browsers are sent, oldest first.
pub record State : Type 0 where
  pub table : List RestoreJob
  pub events : List (Text × Option RestoreJob)

unfoldable pub image_from_manifest : (Text → Option Text) → Text → Text
image_from_manifest decode m =
    if text_eq m [] then [] else elim (decode m) [ none ↦ [] | some image ↦ image ]

unfoldable pub broadcast_restore_job : RestoreJob → Text → State → State
broadcast_restore_job job event s = record s { events = s.events ++ (event, some job) ∷ [] }

-- mapRestoreResult: the status, the detail and the error
unfoldable pub map_restore_result : RestoreResult → Text × Text × Text
map_restore_result r =
    if not r.ok
    then (status_failed, r.detail, r.err)
    else if r.recreated
    then (status_ok, r.detail, [])
    else if not (text_eq r.err [])
    then (status_failed, r.detail, r.err)
    else (status_partial, r.detail, [])

unfoldable pub finalize_restore_job : ℕ → Text → Text → Text → RestoreJob → State → State
unfolding broadcast_restore_job
finalize_restore_job now status detail err j s =
    let job = record j {
      status = status;
      stage = [];
      detail = detail;
      error = err;
      finished_at = now;
    } in
    let s' =
      broadcast_restore_job job (codes "restore.update")
        (record s { table = update_restore_job job s.table }) in
    record s' { events = s'.events ++ (codes "restore.jobs", none) ∷ [] }

-- drainRestore: the result, unless the time is over, with the job and the state that the progress left
unfoldable pub drain_restore :
    List Message → RestoreJob → State → Option RestoreResult × RestoreJob × State
unfolding broadcast_restore_job
drain_restore [] job s = (none, job, s)
drain_restore (closed ∷ ms) job s = (
  some (record { ok = false; err = codes "agent disconnected"; detail = []; recreated = false }),
  job,
  s,
)
drain_restore (progress stage done total percent ∷ ms) job s =
    let job' = record job {
      stage = stage;
      bytes_done = done;
      bytes_total = total;
      percent = percent;
    } in
    let s' = record s {
      table = update_restore_job_progress job.id stage done total percent s.table;
    } in
    drain_restore ms job' (broadcast_restore_job job' (codes "restore.progress") s')
drain_restore (result r ∷ ms) job s = (some r, job, s)
drain_restore (other ∷ ms) job s = drain_restore ms job s

-- The end of a task whose request was sent: whether it counts as ok, and the state.
unfoldable pub drained : ℕ → Option RestoreResult × RestoreJob × State → Bool × State
unfolding finalize_restore_job map_restore_result
drained now (none, job, s) =
    (false, finalize_restore_job now status_failed [] (codes "恢复超时（2h）") job s)
drained now (some r, job, s) =
    let (status, detail, err) = map_restore_result r in
    (
      text_eq status status_ok,
      finalize_restore_job now status detail err (record job { recreated = r.recreated }) s,
    )

-- A task once its job is stored: whether the archive is there, and the error of Send.
unfoldable pub proceed : Bool → Option Text → Turn → RestoreJob → State → Bool × State
unfolding drained drain_restore
proceed false e t job s = (
  false,
  finalize_restore_job t.finished status_failed [] (codes "staged archive unavailable") job s,
)
proceed true (some e) t job s = (
  false,
  finalize_restore_job t.finished status_failed [] (codes "node unreachable: " ++ e) job s,
)
proceed true none t job s = drained t.finished (drain_restore t.messages job s)

module _ (decode : Text → Option Text) (target agent_version actor : Text) where
  -- The job that a task starts with, before CreateRestoreJob.
  unfoldable pub job_of : Turn → RestoreJob
  unfolding image_from_manifest
  job_of t = record {
    id = [];
    backup_id = t.task.b.id;
    container = t.task.name;
    image = image_from_manifest decode t.task.b.manifest;
    origin_node = t.task.b.node_id;
    target_node = target;
    status = status_running;
    stage = [];
    detail = [];
    error = [];
    recreated = false;
    bytes_total = 0;
    bytes_done = 0;
    percent = 0;
    agent_version = agent_version;
    actor = actor;
    started_at = 0;
    finished_at = 0;
  }

  -- A task of runNodeRestore: whether it counts as ok, and the state.
  unfoldable pub run_task : Turn → State → Bool × State
  unfolding create_restore_job proceed
  run_task t s =
      let (job, table) = create_restore_job t.new_id t.started (job_of t) s.table in
      let s' = broadcast_restore_job job (codes "restore.update") (record s { table = table }) in
      proceed t.ensured t.send_err t job s'

  -- runNodeRestore: the tallies ok and fail, and the state
  unfoldable pub run_node_restore : List Turn → ℕ → ℕ → State → ℕ × ℕ × State
  unfolding run_task
  run_node_restore [] ok fail s = (ok, fail, s)
  run_node_restore (t ∷ ts) ok fail s =
      let (good, s') = run_task t s in
      if good then run_node_restore ts (suc ok) fail s' else run_node_restore ts ok (suc fail) s'

-- restoreConcurrency
unfoldable pub restore_concurrency : ℕ → ℕ
restore_concurrency n = if ltb n 1 then 1 else if ltb 4 n then 4 else n
