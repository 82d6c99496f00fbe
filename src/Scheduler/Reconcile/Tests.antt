-- ===== src/Scheduler/Reconcile/Tests.antt =====
-- The theorems of the reconciliation at a concrete schedule.
use bastion_hub.Prelude.{
  ◌≡◌, refl, true, ◌&&◌, not, List, [], ◌∷◌, Text, codes, text_eq, trim_space, replace_byte, All,
}
use bastion_hub.Scheduler.Backups.{BackupTarget}
use bastion_hub.Scheduler.Reconcile.{
  remove_set, current_names, reconcile_from, verdict, by_normalized, sort_strings, insert_sorted,
  normalize_compose_container_name, reconcile_configured_container_names, persist_reconciled,
}
use bastion_hub.Scheduler.Reconcile.Names.{reconcile_exact, IsSoundFor, Accounted}
use bastion_hub.Scheduler.Reconcile.Persist.{
  persist_reconciled_exact, Distinct, Among, Stands, keys_of, is_none,
}

abbrev allowed : List Text
allowed = codes "app_web_1" ∷ codes "db" ∷ codes "old" ∷ []

abbrev scanned_names : List Text
scanned_names = codes "app-web-1" ∷ codes " db" ∷ []

-- One name is relinked, one kept and one removed.
reconciled : reconcile_configured_container_names allowed scanned_names ≡ record {
  effective = codes "app-web-1" ∷ codes "db" ∷ [];
  relinked = (codes "app_web_1", codes "app-web-1") ∷ [];
  removed = codes "old" ∷ [];
}
unfolding reconcile_configured_container_names reconcile_from verdict by_normalized current_names
    sort_strings insert_sorted normalize_compose_container_name text_eq trim_space replace_byte
reconciled = refl

reconcile_exact_example :
    IsSoundFor
      (current_names scanned_names)
      (reconcile_configured_container_names allowed scanned_names)
    × Accounted (codes "old") (reconcile_configured_container_names allowed scanned_names)
unfolding text_eq
reconcile_exact_example = reconcile_exact allowed scanned_names (codes "old") refl

abbrev web : BackupTarget
web = record { node_id = codes "a"; container = codes "id1"; name = codes "app_web_1" }

abbrev old : BackupTarget
old = record { node_id = codes "a"; container = codes "id2"; name = codes "old" }

abbrev renamed : List (Text × List (Text × Text))
renamed = (codes "a", (codes "app_web_1", codes "app-web-1") ∷ []) ∷ []

abbrev vanished : List (Text × List Text)
vanished = (codes "a", codes "old" ∷ []) ∷ []

abbrev live_id : Text → Text → Text
live_id node name = codes "id9"

persist_reconciled_exact_example :
    let (next, on) = persist_reconciled live_id true (web ∷ old ∷ []) renamed vanished in
    Distinct (keys_of next)
    × All (λ u. Among live_id (remove_set vanished) renamed u (web ∷ old ∷ [])) next
    × All (Stands live_id (remove_set vanished) renamed [] (keys_of next)) (web ∷ old ∷ [])
    × (on ≡ (true && not (is_none next)))
persist_reconciled_exact_example =
    persist_reconciled_exact live_id true (web ∷ old ∷ []) renamed vanished
