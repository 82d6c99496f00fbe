-- ===== src/Backup/Jobs.antt =====
-- master/internal/store/restore_jobs.go: the table of restore jobs, a list of rows in the order of
-- their inserts.

use bastion_hub.Prelude.{
  ℕ, Bool, ◌||◌, ◌==◌, leb, ltb, List, [], ◌∷◌, ◌++◌, Text, text_eq, any, take, if◌then◌else◌,
}

pub record RestoreJob : Type 0 where
  pub id : Text
  pub backup_id : Text
  pub container : Text
  pub image : Text
  pub origin_node : Text
  pub target_node : Text
  pub status : Text
  pub stage : Text
  pub detail : Text
  pub error : Text
  pub recreated : Bool
  pub bytes_total : ℕ
  pub bytes_done : ℕ
  pub percent : ℕ
  pub agent_version : Text
  pub actor : Text
  pub started_at : ℕ
  pub finished_at : ℕ

-- CreateRestoreJob: the job with its id and its start, and the table, which an id that is taken leaves
-- as it is.
unfoldable pub create_restore_job :
    Text → ℕ → RestoreJob → List RestoreJob → RestoreJob × List RestoreJob
create_restore_job new_id now j table =
    let job = record j {
      id = (if text_eq j.id [] then new_id else j.id);
      started_at = (if j.started_at == 0 then now else j.started_at);
    } in
    (job, (if any (λ r. text_eq r.id job.id) table then table else table ++ job ∷ []))

-- UPDATE restore_jobs SET ... WHERE id=?
unfoldable pub update_where : Text → (RestoreJob → RestoreJob) → List RestoreJob → List RestoreJob
update_where id f [] = []
update_where id f (r ∷ table) = (if text_eq r.id id then f r else r) ∷ update_where id f table

-- UpdateRestoreJob
unfoldable pub update_restore_job : RestoreJob → List RestoreJob → List RestoreJob
unfolding update_where
update_restore_job j table =
    update_where j.id
      (λ (r : RestoreJob). record r {
        status = j.status;
        stage = j.stage;
        detail = j.detail;
        error = j.error;
        recreated = j.recreated;
        finished_at = j.finished_at;
      })
      table

-- UpdateRestoreJobProgress
unfoldable pub update_restore_job_progress :
    Text → Text → ℕ → ℕ → ℕ → List RestoreJob → List RestoreJob
unfolding update_where
update_restore_job_progress id stage done total percent table =
    update_where id
      (λ (r : RestoreJob). record r {
        stage = stage;
        bytes_done = done;
        bytes_total = total;
        percent = percent;
      })
      table

-- ORDER BY started_at DESC
unfoldable pub insert_later : RestoreJob → List RestoreJob → List RestoreJob
insert_later j [] = j ∷ []
insert_later j (r ∷ table) =
    let rest = insert_later j table in
    if leb r.started_at j.started_at then j ∷ r ∷ table else r ∷ rest

-- ListRestoreJobs
unfoldable pub list_restore_jobs : ℕ → List RestoreJob → List RestoreJob
unfolding insert_later
list_restore_jobs limit table =
    take (if limit == 0 || ltb 500 limit then 200 else limit) (latest_first table)
  where
    latest_first : List RestoreJob → List RestoreJob
    latest_first [] = []
    latest_first (j ∷ js) = insert_later j (latest_first js)
