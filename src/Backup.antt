-- ===== src/Backup.antt =====
-- master/internal/backup and the rows of backups in master/internal/store: the life of a backup.
pub mod Rows
pub mod Jobs
pub mod Restore
pub mod Targets
pub mod Run
pub mod Restic
pub mod Report
pub mod Shard
pub mod Stage
pub mod Push
pub mod Reaper
pub mod Retention
