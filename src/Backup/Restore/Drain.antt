-- ===== src/Backup/Restore/Drain.antt =====
-- How one restore ends: the agent's messages, and the job's row.
use bastion_hub.Prelude.{
  ℕ, ◌≡◌, refl, ap, ◌∙◌, arith, Bool, true, false, List, [], ◌∷◌, ◌++◌, any, Text, codes, text_eq,
  text_eq_refl, Option, none, some, ◌&&◌,
}
use bastion_hub.Backup.Jobs.{
  RestoreJob, update_where, update_restore_job, update_restore_job_progress,
}
use bastion_hub.Backup.Restore.{
  status_running, status_ok, status_failed, RestoreResult, Message, closed, progress, result, other,
  Turn, State, map_restore_result, finalize_restore_job, broadcast_restore_job, drain_restore,
  drained, proceed,
}

-- The agent's last word.
pub answer : List Message → Option RestoreResult
answer [] = none
answer (closed ∷ ms) =
    some (record { ok = false; err = codes "agent disconnected"; detail = []; recreated = false })
answer (progress stage done total percent ∷ ms) = answer ms
answer (result r ∷ ms) = some r
answer (other ∷ ms) = answer ms

-- A job after the progress that is told before that.
pub progressed : List Message → RestoreJob → RestoreJob
progressed [] job = job
progressed (closed ∷ ms) job = job
progressed (progress stage done total percent ∷ ms) job =
    progressed ms
      (record job { stage = stage; bytes_done = done; bytes_total = total; percent = percent })
progressed (result r ∷ ms) job = job
progressed (other ∷ ms) job = progressed ms job

update_where-append :
    (id : Text) (f : RestoreJob → RestoreJob) (table : List RestoreJob) (j : RestoreJob)
    → any (λ r. text_eq r.id id) table ≡ false
    → text_eq j.id id ≡ true
    → update_where id f (table ++ j ∷ []) ≡ table ++ f j ∷ []
unfolding update_where
update_where-append id f [] j absent same = ground arith
update_where-append id f (r ∷ table) j absent same =
    ground (arith, update_where-append id f table j)

-- The row of a job and the job have the same columns while the progress comes in.
drain_restore-progressed :
    (ms : List Message) (job : RestoreJob) (s : State) (table : List RestoreJob)
    → any (λ r. text_eq r.id job.id) table ≡ false
    → s.table ≡ table ++ job ∷ []
    → (drain_restore ms job s).0 ≡ answer ms
      × (drain_restore ms job s).1 ≡ progressed ms job
      × (drain_restore ms job s).2.table ≡ table ++ progressed ms job ∷ []
unfolding drain_restore answer progressed update_restore_job_progress broadcast_restore_job
drain_restore-progressed [] job s table absent e = (refl, refl, e)
drain_restore-progressed (closed ∷ ms) job s table absent e = (refl, refl, e)
drain_restore-progressed (progress stage done total percent ∷ ms) job s table absent e =
    drain_restore-progressed ms _ _ table absent (
      rw e (
        update_where-append job.id
          (λ (r : RestoreJob). record r {
            stage = stage;
            bytes_done = done;
            bytes_total = total;
            percent = percent;
          })
          table job absent (text_eq_refl job.id)))
drain_restore-progressed (result r ∷ ms) job s table absent e = (refl, refl, e)
drain_restore-progressed (other ∷ ms) job s table absent e =
    drain_restore-progressed ms job s table absent e

-- How a task ends: the status, the detail, the error and whether a container was made.
pub outcome_of : Option RestoreResult → Text × Text × Text × Bool
outcome_of none = (status_failed, [], codes "恢复超时（2h）", false)
outcome_of (some r) =
    let (status, detail, err) = map_restore_result r in (status, detail, err, r.recreated)

pub closing : ℕ → Text × Text × Text × Bool → RestoreJob → RestoreJob
closing now (status, detail, err, recreated) j = record j {
  status = status;
  stage = [];
  detail = detail;
  error = err;
  recreated = recreated;
  finished_at = now;
}

finalize_restore_job-table :
    (now : ℕ) (status detail err : Text) (job : RestoreJob) (s : State) (table : List RestoreJob)
    (row : RestoreJob)
    → any (λ r. text_eq r.id job.id) table ≡ false
    → row.id ≡ job.id
    → s.table ≡ table ++ row ∷ []
    → (finalize_restore_job now status detail err job s).table
      ≡ table ++ closing now (status, detail, err, job.recreated) row ∷ []
unfolding finalize_restore_job broadcast_restore_job update_restore_job closing
finalize_restore_job-table now status detail err job s table row absent same e =
    rw e (update_where-append job.id _ table row absent (rw same (text_eq_refl job.id)))

drained-table :
    (now : ℕ) (a : Option RestoreResult) (job : RestoreJob) (s : State) (table : List RestoreJob)
    → any (λ r. text_eq r.id job.id) table ≡ false
    → job.recreated ≡ false
    → s.table ≡ table ++ job ∷ []
    → (drained now (a, job, s)).1.table ≡ table ++ closing now (outcome_of a) job ∷ []
      × (drained now (a, job, s)).0 ≡ text_eq (closing now (outcome_of a) job).status status_ok
unfolding drained outcome_of closing finalize_restore_job broadcast_restore_job text_eq
drained-table now none job s table absent fresh e = (
  finalize_restore_job-table now _ _ _ job s table job absent refl e
      ∙ ap (λ b. table ++ closing now (status_failed, [], codes "恢复超时（2h）", b) job ∷ []) fresh,
  refl,
)
drained-table now (some r) job s table absent fresh e = (
  finalize_restore_job-table now _ _ _ (record job { recreated = r.recreated }) s table job absent
      refl e,
  refl,
)

progressed-id :
    (ms : List Message) (job : RestoreJob)
    → (progressed ms job).id ≡ job.id × (progressed ms job).recreated ≡ job.recreated
unfolding progressed
progressed-id [] job = (refl, refl)
progressed-id (closed ∷ ms) job = (refl, refl)
progressed-id (progress stage done total percent ∷ ms) job = progressed-id ms _
progressed-id (result r ∷ ms) job = (refl, refl)
progressed-id (other ∷ ms) job = progressed-id ms job

drained_as :
    (now : ℕ) (x : Option RestoreResult × RestoreJob × State) (a : Option RestoreResult)
    (job : RestoreJob) (table : List RestoreJob)
    → x.0 ≡ a
    → x.1 ≡ job
    → any (λ r. text_eq r.id job.id) table ≡ false
    → job.recreated ≡ false
    → x.2.table ≡ table ++ job ∷ []
    → (drained now x).1.table ≡ table ++ closing now (outcome_of a) job ∷ []
      × (drained now x).0 ≡ text_eq (closing now (outcome_of a) job).status status_ok
drained_as now (b, j, s) a job table ea ej absent fresh h =
    rw (ea, ej) (drained-table now a job s table absent fresh h)

-- The row of a job after its task, by whether the archive is there and the error of Send.
pub row_after : Bool → Option Text → Turn → RestoreJob → RestoreJob
row_after false e t j =
    closing t.finished (status_failed, [], codes "staged archive unavailable", false) j
row_after true (some e) t j =
    closing t.finished (status_failed, [], codes "node unreachable: " ++ e, false) j
row_after true none t j =
    closing t.finished (outcome_of (answer t.messages)) (progressed t.messages j)

pub proceed-table :
    (ensured : Bool) (e : Option Text) (t : Turn) (job : RestoreJob) (s : State)
    (table : List RestoreJob)
    → any (λ r. text_eq r.id job.id) table ≡ false
    → job.recreated ≡ false
    → s.table ≡ table ++ job ∷ []
    → (proceed ensured e t job s).1.table ≡ table ++ row_after ensured e t job ∷ []
      × (proceed ensured e t job s).0 ≡ text_eq (row_after ensured e t job).status status_ok
unfolding proceed row_after finalize_restore_job broadcast_restore_job text_eq closing
proceed-table false e t job s table absent fresh h = (
  finalize_restore_job-table _ _ _ _ job s table job absent refl h
      ∙ ap
          (λ b.
            table
            ++ closing t.finished (status_failed, [], codes "staged archive unavailable", b) job
              ∷ [])
          fresh,
  refl,
)
proceed-table true (some e) t job s table absent fresh h = (
  finalize_restore_job-table _ _ _ _ job s table job absent refl h
      ∙ ap
          (λ b.
            table
            ++ closing t.finished (status_failed, [], codes "node unreachable: " ++ e, b) job ∷ [])
          fresh,
  refl,
)
proceed-table true none t job s table absent fresh h =
    let d = drain_restore-progressed t.messages job s table absent h in
    let same = progressed-id t.messages job in
    drained_as t.finished (drain_restore t.messages job s) (answer t.messages)
      (progressed t.messages job) table d.0 d.1 (rw same.0 absent) (same.1 ∙ fresh) d.2

abbrev pub Ended : RestoreJob → Type 0
Ended j = text_eq j.status status_running ≡ false

outcome_of-Ended : (a : Option RestoreResult) → text_eq (outcome_of a).0 status_running ≡ false
unfolding outcome_of map_restore_result text_eq
outcome_of-Ended none = refl
outcome_of-Ended (some r) = ground arith

pub row_after-Ended :
    (ensured : Bool) (e : Option Text) (t : Turn) (job : RestoreJob)
    → Ended (row_after ensured e t job)
unfolding row_after closing text_eq
row_after-Ended false e t job = refl
row_after-Ended true (some e) t job = refl
row_after-Ended true none t job = outcome_of-Ended (answer t.messages)

-- An answer that a container was made.
abbrev pub made_container : Option RestoreResult → Bool
made_container none = false
made_container (some r) = r.ok && r.recreated

abbrev pub restored : Bool → Option Text → List Message → Bool
restored false e ms = false
restored true (some e) ms = false
restored true none ms = made_container (answer ms)

outcome_of-ok : (a : Option RestoreResult) → text_eq (outcome_of a).0 status_ok ≡ made_container a
unfolding outcome_of map_restore_result text_eq
outcome_of-ok none = refl
outcome_of-ok (some r) = ground arith

pub row_after-restored :
    (ensured : Bool) (e : Option Text) (t : Turn) (job : RestoreJob)
    → text_eq (row_after ensured e t job).status status_ok ≡ restored ensured e t.messages
unfolding row_after closing text_eq
row_after-restored false e t job = refl
row_after-restored true (some e) t job = refl
row_after-restored true none t job = outcome_of-ok (answer t.messages)

pub row_after-id :
    (ensured : Bool) (e : Option Text) (t : Turn) (job : RestoreJob)
    → (row_after ensured e t job).id ≡ job.id
unfolding row_after closing
row_after-id false e t job = refl
row_after-id true (some e) t job = refl
row_after-id true none t job = (progressed-id t.messages job).0
