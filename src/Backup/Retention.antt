-- ===== src/Backup/Retention.antt =====
-- master/internal/backup/service.go: applyRetention, which backups of a node are kept.
pub mod Order
pub mod Versions
mod Tests
use bastion_hub.Prelude.{
  ℕ, suc, ℤ, is_zero, is_positive, pos_part, ◌+◌, ◌*◌, Bool, true, false, ◌&&◌, ◌||◌, List, [], ◌∷◌,
  ◌++◌, Text, text_eq, leb, ltb, if◌then◌else◌,
}
use bastion_hub.Backup.Rows.{Backup, list_backups, delete_backup}

-- retentionCfg
pub record RetentionCfg : Type 0 where
  pub keep_count : ℤ
  pub keep_days : ℤ

-- The group that a backup is a version of.
unfoldable pub version_key : Backup → Text
version_key b =
    let stable = (if text_eq b.container_name [] then b.container else b.container_name) in
    if text_eq stable []
    then (if text_eq b.name [] then b.id else b.node_id ++ b'|' ∷ b.name)
    else stable

abbrev pub kept_by_days : RetentionCfg → ℕ → Backup → Bool
kept_by_days rc now b =
    is_positive rc.keep_days && leb now (b.created_at + pos_part rc.keep_days * 86400)

abbrev pub kept_by_count : RetentionCfg → ℕ → Bool
kept_by_count rc n = is_positive rc.keep_count && ltb n (pos_part rc.keep_count)

-- kept[key]++
abbrev pub bump : Text → (Text → ℕ) → Text → ℕ
bump key kept k = if text_eq k key then suc (kept k) else kept k

-- The loop over the rows: those that stay, and those that go.
pub retain : RetentionCfg → ℕ → (Text → ℕ) → List Backup → List Backup × List Backup
unfolding version_key
retain rc now kept [] = ([], [])
retain rc now kept (b ∷ rows) =
    let key = version_key b in
    let (stays, goes) = retain rc now (bump key kept) rows in
    let (stays', goes') = retain rc now kept rows in
    if kept_by_days rc now b || kept_by_count rc (kept key)
    then (b ∷ stays, goes)
    else (stays', b ∷ goes')

abbrev pub delete_all : List Backup → List Backup → List Backup
delete_all [] table = table
delete_all (b ∷ goes) table = delete_all goes (delete_backup b.id table)

-- applyRetention: the table after it, and the rows whose archives are deleted.
pub apply_retention : RetentionCfg → ℕ → Text → List Backup → List Backup × List Backup
unfolding retain
apply_retention rc now node table =
    let (stays, goes) = retain rc now (λ k. 0) (list_backups node table) in
    if is_zero rc.keep_count && is_zero rc.keep_days
    then (table, [])
    else (delete_all goes table, goes)
