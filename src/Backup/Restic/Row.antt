-- ===== src/Backup/Restic/Row.antt =====
-- What a restic backup leaves in the table of backups.
use bastion_hub.Prelude.{
  is_none, ℤ, is_zero, ℕ, ◌≡◌, refl, arith, Bool, true, false, ◌&&◌, List, [], ◌∷◌, Text, text_eq,
  text_eq_refl, codes, Option, none, some, if◌then◌else◌, Bool-cases, Option-cases, inl, inr, subst,
}
use bastion_hub.Backup.Rows.{Backup, create_backup, update_backup, delete_backup, get_backup}
use bastion_hub.Backup.Targets.{UnitResult}
use bastion_hub.Backup.Restic.{
  ExecErr, offline, disconnected, failed, finish, run_created, run_restic_container_backup_sync,
}

-- The status of the row once the command has ended, if there is a row.
abbrev pub row_status : ℤ × Option ExecErr → Text → Option Text
row_status (exit, some offline) before = none
row_status (exit, some disconnected) before = some before
row_status (exit, some (failed e)) before = some (codes "failed")
row_status (exit, none) before = some (if is_zero exit then codes "ok" else codes "failed")

abbrev pub status_of : Option Backup → Option Text
status_of none = none
status_of (some b) = some b.status

get_backup-delete_backup :
    (id : Text) (table : List Backup) → get_backup id (delete_backup id table) ≡ none
unfolding get_backup delete_backup
get_backup-delete_backup id [] = refl
get_backup-delete_backup id (r ∷ table) = ground (arith, get_backup-delete_backup id table)

status-update_backup :
    (b : Backup) (table : List Backup) (r : Backup)
    → get_backup b.id table ≡ some r
    → status_of (get_backup b.id (update_backup b table)) ≡ some b.status
unfolding get_backup update_backup
status-update_backup b [] r h = cc
status-update_backup b (q ∷ table) r h = elim (Bool-cases (text_eq q.id b.id)) [
  | inl e ↦ rw (e, e) refl
  | inr e ↦ rw (e, e) (status-update_backup b table r (rw e at h))
]

-- The status of a row in the table that an insert leaves, if it leaves one.
abbrev pub InTable : Text → Text → Option (List Backup) → Type 0
InTable id status none = Unit
InTable id status (some table) = status_of (get_backup id table) ≡ some status

create_backup-InTable :
    (now : ℕ) (b : Backup) (table : List Backup) → InTable b.id b.status (create_backup now b table)
unfolding get_backup create_backup
create_backup-InTable now b [] = rw (text_eq_refl b.id) refl
create_backup-InTable now b (q ∷ table) = elim (Bool-cases (text_eq q.id b.id)) [
  | inl e ↦ rw e tt
  | inr e ↦ elim (Option-cases (create_backup now b table)) [
    | inl none' ↦ rw (e, none') tt
    | inr (t, some') ↦
        rw (e, some', e) (subst (InTable b.id b.status) some' (create_backup-InTable now b table))
  ]
]

status-row :
    (id : Text) (status : Text) (table : List Backup)
    → status_of (get_backup id table) ≡ some status
    → (r : Backup) × (get_backup id table ≡ some r)
status-row id status table h = elim (Option-cases (get_backup id table)) [ inl e ↦ cc | inr r ↦ r ]

-- Whether the command is tried: there is the node, it is online, and the row is inserted.
abbrev pub tried : Option Text → Bool → Option (List Backup) → Bool
tried none online created = false
tried (some node_name) online none = false
tried (some node_name) online (some table) = online

module _ (added : Text → ℕ) where
  finish-row :
      (b : Backup) (ur : UnitResult) (exec : Text × ℤ × Option ExecErr) (table : List Backup)
      → ur.tar_ok ≡ false
      → status_of (get_backup b.id table) ≡ some b.status
      → (status_of (get_backup b.id (finish added b ur exec table).2)
          ≡ row_status (exec.1, exec.2) b.status)
        × ((finish added b ur exec table).0.tar_ok ≡ (is_none exec.2 && is_zero exec.1))
  unfolding finish
  finish-row b ur (out, exit, some offline) table h row =
      (rw (get_backup-delete_backup b.id table) refl, h)
  finish-row b ur (out, exit, some disconnected) table h row = (row, h)
  finish-row b ur (out, exit, some (failed e)) table h row =
      let (r, found) = status-row b.id b.status table row in
      (status-update_backup (record b { status = codes "failed"; error = e }) table r found, h)
  finish-row b ur (out, exit, none) table h row =
      let (r, found) = status-row b.id b.status table row in
      elim (Bool-cases (is_zero exit)) [
        | inl e ↦ rw e (
          status-update_backup (record b { status = codes "ok"; size = added out }) table r found,
          refl,
        )
        | inr e ↦ rw e (
          status-update_backup (record b { status = codes "failed"; error = _ }) table r found,
          h,
        )
      ]

  run_created-row :
      (created : Option (List Backup)) (create_err : Text) (b : Backup) (ur : UnitResult)
      (exec : Text × ℤ × Option ExecErr) (table : List Backup)
      → InTable b.id b.status created
      → ur.tar_ok ≡ false
      → (status_of (get_backup b.id (run_created added created create_err b ur exec table).2) ≡ (
          if tried (some []) true created
          then row_status (exec.1, exec.2) b.status
          else status_of (get_backup b.id table)))
        × ((run_created added created create_err b ur exec table).0.tar_ok
            ≡ (tried (some []) true created && is_none exec.2 && is_zero exec.1))
  unfolding run_created
  run_created-row none create_err b ur exec table row h = (refl, h)
  run_created-row (some t) create_err b ur exec table row h = finish-row b ur exec t h row

  -- If the node is there and online and the row is inserted, RunResticContainerBackupSync leaves the
  -- row as ok exactly if the command has ended with 0, as failed if it has ended otherwise or the wait
  -- for it has failed, without a row if the agent was offline when it was sent, and with the status it
  -- started with if the agent's connection closes; otherwise the row's place in the table is as before.
  -- The archive counts as made exactly if the command was tried and has ended with 0.
  pub run_restic_exact :
      (now : ℕ) (node : Option Text) (online : Bool) (create_err : Text) (b : Backup)
      (exec : Text × ℤ × Option ExecErr) (table : List Backup)
      → (status_of (
            get_backup b.id
              (run_restic_container_backup_sync added now node online create_err b exec table).2)
          ≡ (if tried node online (create_backup now b table)
              then row_status (exec.1, exec.2) b.status
              else status_of (get_backup b.id table)))
        × ((run_restic_container_backup_sync added now node online create_err b exec table).0.tar_ok
            ≡ (tried node online (create_backup now b table) && is_none exec.2 && is_zero exec.1))
  unfolding run_restic_container_backup_sync
  run_restic_exact now none online create_err b exec table = (refl, refl)
  run_restic_exact now (some node_name) true create_err b exec table =
      run_created-row (create_backup now b table) create_err b _ exec table
        (create_backup-InTable now b table) refl
  run_restic_exact now (some node_name) false create_err b exec table =
      elim (Option-cases (create_backup now b table)) [
        | inl e ↦ rw e (refl, refl)
        | inr (t, e) ↦ rw e (refl, refl)
      ]
