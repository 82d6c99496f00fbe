-- ===== src/Backup/Rows.antt =====
-- master/internal/store/backups.go and models.go (Backup): the table of backups, a list of rows.
use bastion_hub.Prelude.{
  ℕ, not, Option, none, some, List, [], ◌∷◌, Text, text_eq, filter, take, leb, ◌==◌, if◌then◌else◌,
}

pub record Backup : Type 0 where
  pub id : Text
  pub node_id : Text
  pub name : Text
  pub paths : Text
  pub container : Text
  pub container_name : Text
  pub size : ℕ
  pub target : Text
  pub stage_path : Text
  pub status : Text
  pub error : Text
  pub manifest : Text
  pub created_at : ℕ

-- CreateBackup for a row that has an id; `now` is the time of the call. An id that is taken is an error.
unfoldable pub create_backup : ℕ → Backup → List Backup → Option (List Backup)
create_backup now b [] =
    some (record b { created_at = (if b.created_at == 0 then now else b.created_at) } ∷ [])
create_backup now b (r ∷ rows) =
    if text_eq r.id b.id
    then none
    else elim (create_backup now b rows) [ none ↦ none | some rows' ↦ some (r ∷ rows') ]

-- UpdateBackup
unfoldable pub update_backup : Backup → List Backup → List Backup
update_backup b [] = []
update_backup b (r ∷ rows) =
    (if text_eq r.id b.id
      then record r {
        size = b.size;
        status = b.status;
        error = b.error;
        stage_path = b.stage_path;
        manifest = b.manifest;
      }
      else r)
    ∷ update_backup b rows

-- GetBackup
unfoldable pub get_backup : Text → List Backup → Option Backup
get_backup id [] = none
get_backup id (r ∷ rows) = if text_eq r.id id then some r else get_backup id rows

-- DeleteBackup
unfoldable pub delete_backup : Text → List Backup → List Backup
delete_backup id rows = filter (λ r. not (text_eq r.id id)) rows

-- ORDER BY created_at DESC
unfoldable pub insert_newer : Backup → List Backup → List Backup
insert_newer b [] = b ∷ []
insert_newer b (r ∷ rows) =
    if leb r.created_at b.created_at then b ∷ r ∷ rows else r ∷ insert_newer b rows

unfoldable pub newest_first : List Backup → List Backup
unfolding insert_newer
newest_first [] = []
newest_first (b ∷ rows) = insert_newer b (newest_first rows)

-- ListBackups, of one node or of all
unfoldable pub list_backups : Text → List Backup → List Backup
unfolding newest_first
list_backups node rows =
    take 500
      (newest_first (if text_eq node [] then rows else filter (λ r. text_eq r.node_id node) rows))
