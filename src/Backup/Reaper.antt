-- ===== src/Backup/Reaper.antt =====
-- master/internal/backup/reaper.go (loadReaperCfg, reapOnce) and master/internal/store/backups.go
-- (ReapStaleBackups): ending the backups that a restart of the master has abandoned.
pub mod Stale
mod Tests
use bastion_hub.Prelude.{
  ℕ, ◌+◌, ◌-◌, ◌*◌, ◌≡◌, Bool, true, false, ◌&&◌, List, [], ◌∷◌, Text, codes, text_eq, filter, map,
  ltb, if◌then◌else◌,
}
use bastion_hub.Backup.Rows.{Backup}

abbrev pub is_running : Backup → Bool
is_running b = text_eq b.status (codes "running")

-- loadReaperCfg, on the minutes that the setting decodes to
pub load_reaper_cfg : ℕ → ℕ
load_reaper_cfg max_age_minutes = if ltb max_age_minutes 10 then 120 else max_age_minutes

-- The rows that the query of ReapStaleBackups selects: created before the cutoff `now - max_age`.
abbrev pub is_stale : ℕ → ℕ → Backup → Bool
is_stale now max_age b = is_running b && ltb (b.created_at + max_age) now

pub stale : ℕ → ℕ → List Backup → List Backup
stale now max_age rows = filter (is_stale now max_age) rows

-- One UPDATE: only a row that still runs is changed.
pub fail_row : Text → Text → List Backup → List Backup
fail_row note id [] = []
fail_row note id (b ∷ rows) =
    (if text_eq b.id id && is_running b
      then record b { status = codes "failed"; error = note }
      else b)
    ∷ fail_row note id rows

pub fail_rows : Text → List Backup → List Backup → List Backup
unfolding fail_row
fail_rows note [] rows = rows
fail_rows note (r ∷ reaped) rows = fail_rows note reaped (fail_row note r.id rows)

-- ReapStaleBackups: the rows it returns, and the table after it. `meanwhile` is what jobs that end
-- between the query and the updates make of the table.
pub reap_stale_backups :
    Text → ℕ → ℕ → (List Backup → List Backup) → List Backup → List Backup × List Backup
unfolding stale fail_rows
reap_stale_backups note now max_age meanwhile rows =
    let reaped = stale now max_age rows in (reaped, fail_rows note reaped (meanwhile rows))

-- The rows that reapOnce broadcasts: each as failed.
pub broadcast_rows : List Backup → List Backup
broadcast_rows reaped = map {B = Backup} (λ b. record b { status = codes "failed" }) reaped
