-- ===== src/Scheduler/Fleet.antt =====
-- master/internal/scheduler/scheduler.go: a scheduled container update of several nodes
-- (runContainerUpdate). The display names of the nodes are left to the report.
pub mod Silence
mod Tests
use bastion_hub.Prelude.{
  ℕ, suc, ◌+◌, Bool, true, false, ◌&&◌, ◌||◌, not, Option, none, some, List, [], ◌∷◌, ◌++◌, map,
  Text, codes, text_eq, trim_space, any, filter, ltb, length, lookup, insert, if◌then◌else◌,
}
use bastion_hub.Scheduler.Answers.{NodeEnv, UpgradedImage, Outcome}
use bastion_hub.Scheduler.Backups.{BackupTarget, is_empty}
use bastion_hub.Scheduler.Reconcile.{persist_reconciled}
use bastion_hub.Scheduler.Updates.{run_container_update_node}
use bastion_hub.Scheduler.Versions.{unique_strings}

-- the fields of containerCfg that choose the nodes
pub record ContainerCfg : Type 0 where
  pub node_ids : List Text
  pub containers : List BackupTarget

-- containerUpdateStats
pub record Stats : Type 0 where
  pub configured : ℕ
  pub attempted : ℕ
  pub succeeded : ℕ
  pub offline : List Text
  pub unavailable : List Text
  pub scanned : ℕ
  pub candidates : ℕ
  pub unknown : ℕ
  pub updated : ℕ
  pub updated_names : List Text
  pub upgraded : List (Text × UpgradedImage)
  pub unchanged : ℕ
  pub skipped : ℕ
  pub failed : ℕ
  pub failures : List Text
  pub relinked : List Text
  pub removed : List Text

abbrev pub no_stats : ℕ → Stats
no_stats configured = record {
  configured = configured;
  attempted = 0;
  succeeded = 0;
  offline = [];
  unavailable = [];
  scanned = 0;
  candidates = 0;
  unknown = 0;
  updated = 0;
  updated_names = [];
  upgraded = [];
  unchanged = 0;
  skipped = 0;
  failed = 0;
  failures = [];
  relinked = [];
  removed = [];
}

-- The names that each node is restricted to, and the nodes in the order of their first entries.
abbrev pub Selection : Type 0
Selection = List (Text × List Text) × List Text

abbrev pub name_of : (Text → Text → Text) → BackupTarget → Text
name_of name_by_id c =
    let name = trim_space c.name in
    if text_eq name [] && not (text_eq c.container [])
    then name_by_id c.node_id c.container
    else name

-- allowByNode[nodeID][name] = struct{}{}
unfoldable pub add_name : Text → Text → Option (List Text) → Selection → Selection
add_name node name none (allow, nodes) = (insert node (name ∷ []) allow, nodes ++ node ∷ [])
add_name node name (some names) (allow, nodes) =
    (insert node (if any (text_eq name) names then names else names ++ name ∷ []) allow, nodes)

unfoldable pub select_from : (Text → Text → Text) → List BackupTarget → Selection → Selection
unfolding add_name
select_from name_by_id [] sel = sel
select_from name_by_id (c ∷ cs) sel =
    let name = name_of name_by_id c in
    let skip = select_from name_by_id cs sel in
    let add = select_from name_by_id cs (add_name c.node_id name (lookup c.node_id sel.0) sel) in
    if text_eq c.node_id [] || text_eq name [] then skip else add

-- The nodes of a schedule: those of its containers, or the older list, or the schedule's own.
unfoldable pub select_nodes : (Text → Text → Text) → Text → ContainerCfg → Selection
unfolding select_from
select_nodes name_by_id schedule_node cfg =
    if not (is_empty cfg.containers) then select_from name_by_id cfg.containers ([], []) else (
      [],
      (if is_empty cfg.node_ids && not (text_eq schedule_node [])
          then schedule_node ∷ []
          else cfg.node_ids),
    )

-- A node, by whether it is online.
unfoldable pub note_node : Bool → Text → Stats → Stats
note_node true nid st = record st { attempted = suc st.attempted }
note_node false nid st = record st { offline = st.offline ++ nid ∷ [] }

-- The loop over the nodes: those that are offline, and the number of the others.
unfoldable pub note_offline : (Text → Bool) → List Text → Stats → Stats
unfolding note_node
note_offline online [] st = st
note_offline online (nid ∷ nids) st = note_offline online nids (note_node (online nid) nid st)

abbrev pub arrow : Text → Text × Text → Text
arrow nid (old, current) = nid ++ codes "/" ++ old ++ codes " → " ++ current

-- What a node's outcome adds, behind mu.
unfoldable pub add_outcome : Text → Outcome → Stats → Stats
add_outcome nid o st = record st {
  unavailable = (if o.unavailable then st.unavailable ++ nid ∷ [] else st.unavailable);
  succeeded = (if not o.unavailable && o.succeeded then suc st.succeeded else st.succeeded);
  scanned = st.scanned + o.scanned;
  candidates = st.candidates + o.candidates;
  unknown = st.unknown + o.unknown;
  updated = st.updated + o.updated;
  updated_names = st.updated_names ++ map (λ name. nid ++ codes "/" ++ name) o.updated_names;
  upgraded = st.upgraded ++ map (λ u. (nid, u)) o.upgraded;
  unchanged = st.unchanged + o.unchanged;
  skipped = st.skipped + o.skipped;
  failed = st.failed + o.failed;
  failures = st.failures ++ o.failures;
  relinked = (if o.scan_complete then st.relinked ++ map (arrow nid) o.relinked else st.relinked);
  removed =
      (if o.scan_complete
        then st.removed ++ map (λ name. nid ++ codes "/" ++ name) o.removed
        else st.removed);
}

unfoldable pub add_outcomes : List (Text × Outcome) → Stats → Stats
unfolding add_outcome
add_outcomes [] st = st
add_outcomes ((nid, o) ∷ ended) st = add_outcomes ended (add_outcome nid o st)

-- relinkedByNode and removedByNode
unfoldable pub relinked_by_node : List (Text × Outcome) → List (Text × List (Text × Text))
relinked_by_node [] = []
relinked_by_node ((nid, o) ∷ ended) =
    if o.scan_complete && not (is_empty o.relinked)
    then (nid, o.relinked) ∷ relinked_by_node ended
    else relinked_by_node ended

unfoldable pub removed_by_node : List (Text × Outcome) → List (Text × List Text)
removed_by_node [] = []
removed_by_node ((nid, o) ∷ ended) =
    if o.scan_complete && not (is_empty o.removed)
    then (nid, o.removed) ∷ removed_by_node ended
    else removed_by_node ended

unfoldable pub container_update_report_worth_sending : Stats → Bool
container_update_report_worth_sending st =
    ltb 0 st.updated
    || not (is_empty st.relinked)
    || not (is_empty st.removed)
    || ltb 0 st.failed
    || not (is_empty st.failures)
    || not (is_empty st.offline)
    || not (is_empty st.unavailable)

-- The failure that an error of persistReconciledContainerTargets adds.
unfoldable pub note_save : Bool → Option Text → Stats → Stats
note_save changed (some e) st =
    if changed then record st { failures = st.failures ++ (codes "计划自动清理保存失败: " ++ e) ∷ [] } else st
note_save changed none st = st

-- What a run leaves: the counts, the schedule's stored targets and whether it is enabled, and whether a
-- report is sent, where there is a notifier.
pub record Run : Type 0 where
  pub stats : Stats
  pub targets : List BackupTarget
  pub enabled : Bool
  pub reported : Bool

-- `env` says what the nodes, the store and the agents answer, and `done` has the nodes that are online
-- in the order in which their updates end; `save_err` is the error that saving the schedule meets.
module _ (id_by_name name_by_id : Text → Text → Text) (online : Text → Bool) (env : Text → NodeEnv)
    (save_err : Option Text) where
  abbrev pub outcome_of : List (Text × List Text) → Text → Text × Outcome
  outcome_of allow nid =
      let names : List Text = elim (lookup nid allow) [ none ↦ [] | some ns ↦ ns ] in
      (nid, (run_container_update_node (env nid) nid names).0)

  -- runContainerUpdate behind the choice of the nodes
  unfoldable pub update_nodes :
      List Text → ContainerCfg → Bool → List (Text × List Text) → List Text → Run
  unfolding note_offline add_outcomes relinked_by_node removed_by_node note_save
      container_update_report_worth_sending
  update_nodes done cfg enabled allow nids =
      let ended = map (outcome_of allow) done in
      let st = add_outcomes ended (note_offline online nids (no_stats (length nids))) in
      let relinked = relinked_by_node ended in
      let removed = removed_by_node ended in
      let changed = not (is_empty relinked) || not (is_empty removed) in
      let saved = persist_reconciled id_by_name enabled cfg.containers relinked removed in
      let saves : Bool = elim save_err [ none ↦ true | some e ↦ false ] in
      let stored = changed && saves in
      let st' = note_save changed save_err st in
      record {
        stats = st';
        targets = (if stored then saved.0 else cfg.containers);
        enabled = (if stored then saved.1 else enabled);
        reported = container_update_report_worth_sending st';
      }

  -- runContainerUpdate, with none where it ends without a node
  unfoldable pub run_container_update : List Text → Text → ContainerCfg → Bool → Option Run
  unfolding select_nodes update_nodes
  run_container_update done schedule_node cfg enabled =
      let (allow, nodes) = select_nodes name_by_id schedule_node cfg in
      let nids = unique_strings nodes in
      if is_empty nids then none else some (update_nodes done cfg enabled allow nids)
