-- ===== src/Lib.antt =====
-- bastion-hub (NodePanel): a master that keeps websocket connections to agents on many nodes, polls
-- their health, watches and updates their containers and runs scheduled backups.
--
-- Parts and files (paths from the repository's root):
--   Hub               master/internal/agenthub/hub.go, request.go: the pool of agent connections and the
--                     waiters of requests. Each function is one critical section of the code, or what
--                     a goroutine does between two of them. Hub/World puts connections and callers
--                     together as a step relation: any of them may move at any time. Channels and
--                     send buffers have the code's capacity of 64.
--   Health/Alerts     master/internal/health/monitor.go (evaluate, pollOnce), cache.go (Sample) and
--                     master/internal/store/health.go: the table of alert rules, and one poll of a node.
--   Health/Cache      master/internal/health/cache.go: the last 240 samples of each node.
--   Monitor           master/internal/monitor/monitor.go: announcing containers in a bad state.
--   Scheduler/Policy  master/internal/scheduler/scheduler.go: classifyUpdateCandidates, imageTagOf.
--   Scheduler/Reports the same file: trackBackupStart, queueBackupReport, flushBackupReports.
--   Scheduler/Backups the same file: the units of runBackup, and the retries of runBackupBatch.
--   Scheduler/Reconcile  the same file: reconcileConfiguredContainerNames and
--                     persistReconciledContainerTargets.
--   Scheduler/Updates the same file: runContainerUpdateNode, with what the node, the store and the agent
--                     answer as inputs, and its requests in order; their types are in Scheduler/Answers.
--   Scheduler/Versions the same file: schedulerAgentVersionAtLeast and uniqueStrings.
--   Scheduler/Fleet   the same file: runContainerUpdate, the update of all nodes of a schedule.
--   Agent/Registry    agent/internal/agent/registry.go: image references, versions in tags, the highest one.
--   Agent/Flavours    the same file: which tags an automatic upgrade may choose. Its regular expressions
--                     are read as functions on the bytes of a tag.
--   Backup/Rows, Backup/Jobs  master/internal/store/backups.go, restore_jobs.go: the tables of backups and
--                     of restore jobs, as lists of rows.
--   Backup/Targets, Backup/Run  master/internal/backup/service.go: directS3UploadConfig, splitTargetIDs
--                     and runBackup, a backup from the agent's archive to its targets.
--   Backup/Restic     the same file: RunResticContainerBackupSync and execAgentSync.
--   Backup/Restore    the same file: runNodeRestore and how a restore job ends.
--   Backup/Shard, Backup/Stage  master/internal/targets/shard.go (shardPull) and ensureStaged of the same
--                     file: pulling an archive back. A target's own Pull is an argument.
--   Backup/Retention  master/internal/backup/service.go: applyRetention.
--   Backup/Report     the same file: the rows and the table of FormatBackupReport. Its texts are lists of
--                     runes; those of the other modules are lists of bytes, except that a Chinese
--                     message of the code stands there by its code points.
--   Inventory         master/internal/store/containers.go: the stored containers and the scan cache.
--   BrowserHub        master/internal/browserhub/hub.go: clients and Broadcast. BrowserHub/World lets
--                     browsers and callers move in any order, each ServeBrowser in its own.
--   Agent/Scan        agent/internal/agent/docker.go: applyRegistryScanGroup, what a scan says of the
--                     containers of one image.
--   Agent/Upgrade     the same file: upgradeAction and rewriteComposeImage, the change of a Compose file;
--                     a file that cannot be written stays as it was.
--   Agent/Ready       the same file: waitContainerReadyStable, over the turns of its loop as a list. The
--                     clock is read once in a turn.
--   Backup/Push       master/internal/backup/reliable.go: the attempts of pushArchiveReliable.
--   Backup/Reaper     master/internal/backup/reaper.go and ReapStaleBackups of
--                     master/internal/store/backups.go: ending abandoned backups.
--   Prelude           lists, texts (lists of bytes), association lists and tests that these share.
-- The scheduler takes candidates from a scan (Policy), brings a schedule in line with it (Reconcile),
-- updates what it wants (Updates), and backs up through the hub (Backups), whose outcomes go into one
-- report (Reports). The monitors read what the agents report through the hub; the agent suggests the
-- tags (Agent/Registry, Agent/Flavours). A backup (Backup/Run, Backup/Restic) makes a row, pushes its
-- archive to the targets (Backup/Push), drops old versions (Retention) and is told of in a report
-- (Backup/Report); a restore (Backup/Restore) makes a job for each container. Updates are sent to the
-- browsers (BrowserHub), and reports of containers go into the Inventory.
--
-- How the code is read: a map is an association list or a function, and the order of its entries is one
-- of those that Go's iteration may take; a set is the list of its items; a mutex makes a function
-- atomic. Times are natural numbers of seconds; a window of an alert and the bounds of the retention,
-- which a request may set below zero, are integers. A float64 is a type with the comparisons that the
-- code uses, and two laws on them (Health/Alerts). Store.ContainerIDByName is a function that the scheduler's
-- definitions take. In Backup/Run and Scheduler/Fleet, goroutines that wait for a mutex are taken in
-- the order in which they end, which is an argument. Callbacks of the hub are recorded with the
-- critical section before them.
--
-- Bounds: retryOfflineUnits runs on fuel, one unit for each round; its window of two hours has room for
-- 12 rounds at ten minutes' distance, and the 13th finds it over. pushArchiveReliable has five attempts.
--
-- Not modelled: sockets, deadlines and pings of the hub; the fetching and decoding of Netdata charts;
-- SQL errors other than a taken key; the units of a batch in Scheduler/Backups, whose outcomes are
-- inputs; parseResticAddedBytes, which reads a floating-point number; HTTP handlers, storage targets, the
-- rest of the agent's side, and the web interface.
pub mod Prelude
pub mod Hub
pub mod Health
pub mod Monitor
pub mod Scheduler
pub mod Agent
pub mod Backup
pub mod Inventory
pub mod BrowserHub
