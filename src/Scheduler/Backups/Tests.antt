-- ===== src/Scheduler/Backups/Tests.antt =====
-- The theorems of the backup batch at a concrete schedule.
use bastion_hub.Prelude.{
  ℕ, ◌+◌, ◌*◌, ◌≤◌, ◌≡◌, refl, true, false, not, none, some, List, [], ◌∷◌, ◌++◌, map, arith, Text,
  codes, text_eq, filter, All, any, ltb, if◌then◌else◌,
}
use bastion_hub.Scheduler.Backups.{
  BackupTarget, BackupCfg, BackupUnit, reference, backup_units, Slot, Round, node_offline,
  retry_offline_units, retry_pass, offline_retry_step,
}
use bastion_hub.Scheduler.Backups.Selection.{backup_units_exact, unit_for, IsCurrent}
use bastion_hub.Scheduler.Backups.Retries.{retry_offline_units_ends, AllKept, EndsAfter, max_rounds}

-- The inventory knows web by a new id, and db no more.
abbrev inventory : Text → Text → Text
inventory node name = if text_eq name (codes "web") then codes "id9" else []

abbrev web : BackupTarget
web = record { node_id = codes "a"; container = codes "id1"; name = codes "web" }

abbrev db : BackupTarget
db = record { node_id = codes "a"; container = codes "id2"; name = codes "db" }

abbrev nightly : BackupCfg
nightly = record {
  paths = [];
  container = [];
  containers = db ∷ web ∷ [];
  incremental_containers = web ∷ db ∷ [];
  node_ids = [];
  target_id = [];
  target_ids = codes "t1" ∷ [];
}

-- The first entry is gone, the second one live.
db_gone : any (λ c. not (text_eq (reference inventory c) [])) (db ∷ web ∷ []) ≡ true
unfolding text_eq reference
db_gone = refl

backup_units_exact_example :
    (backup_units inventory [] nightly
      ≡ map
          (unit_for inventory false)
          (filter (λ c. not (text_eq (reference inventory c) [])) (db ∷ web ∷ []))
        ++ map
            (unit_for inventory true)
            (filter (λ c. not (text_eq (reference inventory c) [])) (web ∷ db ∷ [])))
    × All (IsCurrent inventory) (
        map
          (unit_for inventory false)
          (filter (λ c. not (text_eq (reference inventory c) [])) (db ∷ web ∷ []))
        ++ map
            (unit_for inventory true)
            (filter (λ c. not (text_eq (reference inventory c) [])) (web ∷ db ∷ [])))
backup_units_exact_example = backup_units_exact inventory [] nightly (rw db_gone refl)

-- Node a comes back in the third round.
abbrev later_rounds : ℕ → Round
later_rounds n = record { now = 50 + n * 600; is_online = λ node. ltb 1 n; outcome = λ u. none }

abbrev web_unit : BackupUnit
web_unit = record {
  node_id = codes "a";
  container = codes "id9";
  name = codes "web";
  paths = [];
  incremental = false;
}

abbrev waiting : List Slot
waiting = record { unit_of = web_unit; error = some node_offline; runs = 1 } ∷ []

later_rounds_clock : (n : ℕ) → 50 + n * offline_retry_step ≤ (later_rounds n).now
later_rounds_clock n = omega arith

retry_third :
    retry_offline_units max_rounds 7250 later_rounds 0 waiting
    ≡ some (record { unit_of = web_unit; error = none; runs = 2 } ∷ [])
unfolding retry_offline_units retry_pass
retry_third = refl

retry_offline_units_ends_example :
    (k : ℕ) × (end : List Slot) × (retry_offline_units max_rounds 7250 later_rounds 0 waiting
      ≡ some end)
    × (k ≤ 12)
    × EndsAfter 7250 later_rounds waiting k end
    × AllKept waiting end
retry_offline_units_ends_example =
    retry_offline_units_ends 50 later_rounds later_rounds_clock waiting
