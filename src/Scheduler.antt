-- ===== src/Scheduler.antt =====
-- master/internal/scheduler/scheduler.go: scheduled backups with their retries and combined reports, and
-- the policy and bookkeeping of scheduled container updates.
pub mod Policy
pub mod Reports
pub mod Backups
pub mod Reconcile
pub mod Versions
pub mod Answers
pub mod Updates
pub mod Fleet
