-- ===== src/Scheduler/Updates.antt =====
-- master/internal/scheduler/scheduler.go: the scheduled update of the containers of one node
-- (runContainerUpdateNode). What the node, the store and the agent answer is a record of the model, and
-- what is asked of the agent and of the scan cache is recorded in order.
pub mod Outcomes
pub mod Requests
mod Tests
use bastion_hub.Prelude.{
  ℕ, suc, ◌+◌, ◌≡◌, Bool, true, false, ◌&&◌, ◌||◌, not, Option, none, some, List, [], ◌∷◌, ◌++◌,
  map, Text, codes, text_eq, trim_space, to_lower, has_prefix, filter, length, lookup,
  if◌then◌else◌,
}
use bastion_hub.Scheduler.Answers.{
  ContainerResult, Answer, answered, broke, Scan, scanned_items, scan_failed, NodeEnv, Effect,
  invalidate_scan, invalidate_containers, upgrade_sent, update_sent, UpgradedImage, Outcome,
  no_outcome, State, fail, failed_details, container_result_failures,
}
use bastion_hub.Scheduler.Policy.{ScanItem, CandDesc, Counts, classify_update_candidates}
use bastion_hub.Scheduler.Backups.{is_empty}
use bastion_hub.Scheduler.Reconcile.{
  holds, sort_strings, Reconciled, reconcile_configured_container_names,
}
use bastion_hub.Scheduler.Versions.{
  scheduler_agent_version_at_least, is_missing_docker_socket_scan_error,
}

pub record Cand : Type 0 where
  pub id : Text
  pub name : Text
  pub suggested : Text
  pub from : Text
  pub to : Text

abbrev pub ids_of : List Cand → List Text
ids_of = map (λ c. c.id)

abbrev pub names_of : List Cand → List Text
names_of = map (λ c. c.name)

abbrev pub finish : State → State
finish (out, done) = (record out { succeeded = is_empty out.failures }, done)

abbrev pub add_counts : Counts → Outcome → Outcome
add_counts part out = record out {
  candidates = out.candidates + part.candidates;
  unchanged = out.unchanged + part.unchanged;
  skipped = out.skipped + part.skipped;
  unknown = out.unknown + part.unknown;
}

-- The items that are classified, with the outcome that says what became of the configured names.
pub select_items : List Text → List ScanItem → Outcome → List ScanItem × Outcome
select_items [] items out = (items, out)
select_items (a ∷ allow) items out =
    let r = reconcile_configured_container_names (a ∷ allow) (map (λ it. it.name) items) in
    (
      filter (λ it. holds it.name r.effective) items,
      record out { relinked = r.relinked; removed = r.removed },
    )

module _ (env : NodeEnv) (node : Text) where
  -- nodeID + "/" + name + ": " + reason
  abbrev pub line : Text → Text → Text
  line name reason = node ++ codes "/" ++ name ++ codes ": " ++ reason

  abbrev pub node_line : Text → Text
  node_line reason = node ++ codes ": " ++ reason

  -- The candidates with their current ids.
  pub resolve : List CandDesc → Outcome → Outcome × List Cand
  resolve [] out = (out, [])
  resolve (d ∷ descs) out =
      let id = env.id_by_name d.name in
      let missing = resolve descs (
        fail (line d.name (codes "current container id unavailable"))
          (record out { failed = suc out.failed })) in
      let (out', cands) = resolve descs out in
      if text_eq id [] then missing else (
        out',
        record { id = id; name = d.name; suggested = d.suggested; from = d.from; to = d.to }
            ∷ cands,
      )

  abbrev pub failure_lines : List (Text × Text) → List Text
  failure_lines failures = map (λ e. line e.0 e.1) failures

  -- The names that an upgrade answers as updated, or the candidate's own where a success lists none.
  pub count_upgraded : Cand → ContainerResult → Outcome → Outcome
  unfolding container_result_failures
  count_upgraded c res out =
      let listed = record out {
        updated = out.updated + length res.updated;
        updated_names = out.updated_names ++ res.updated;
        upgraded =
            out.upgraded ++ map (λ n. record { name = n; from = c.from; to = c.to }) res.updated;
      } in
      if is_empty res.updated
        && (res.ok && (text_eq res.err [] && is_empty (container_result_failures res)))
      then record listed {
        updated = suc listed.updated;
        updated_names = listed.updated_names ++ c.name ∷ [];
        upgraded = listed.upgraded ++ record { name = c.name; from = c.from; to = c.to } ∷ [];
      }
      else listed

  -- The failures that it answers.
  pub count_failures : Cand → ContainerResult → Outcome → Outcome
  unfolding container_result_failures
  count_failures c res out =
      let failures = container_result_failures res in
      let counted = record out {
        unchanged = out.unchanged + length res.unchanged;
        skipped = out.skipped + length res.skipped;
        failed = out.failed + length failures;
        failures = out.failures ++ failure_lines failures;
      } in
      if not (text_eq res.err [])
      then fail (line c.name res.err) counted
      else if not res.ok && (is_empty failures && is_empty res.updated)
      then fail (line c.name (codes "agent reported failure")) counted
      else counted

  -- The outcome of an upgrade that the agent answered.
  pub count_upgrade : Cand → ContainerResult → Outcome → Outcome
  unfolding count_upgraded count_failures
  count_upgrade c res out = count_failures c res (count_upgraded c res out)

  -- What follows the agent's answer to an upgrade.
  pub upgrade_answered : Cand → State → Answer → State
  unfolding count_upgrade
  upgrade_answered c (out, done) (broke e) = (
    fail (line c.name (codes "upgrade failed: " ++ e)) (record out { failed = suc out.failed }),
    done ++ upgrade_sent c.id c.suggested ∷ [],
  )
  upgrade_answered c (out, done) (answered res) = (
    count_upgrade c res out,
    done
        ++ upgrade_sent c.id c.suggested
          ∷ invalidate_containers (c.id ∷ c.name ∷ c.suggested ∷ [])
          ∷ [],
  )

  pub upgrade_one : Cand → State → State
  unfolding upgrade_answered
  upgrade_one c st = upgrade_answered c st (env.upgrade c.id c.suggested)

  -- The loop over the candidates: upgrades are sent, the others are collected.
  pub run_upgrades : List Cand → State → State × List Cand
  unfolding upgrade_one
  run_upgrades [] st = (st, [])
  run_upgrades (c ∷ cands) st =
      let upgraded = run_upgrades cands (upgrade_one c st) in
      let (st', plain) = run_upgrades cands st in
      if not (text_eq c.suggested []) then upgraded else (st', c ∷ plain)

  abbrev pub sorted_lines : List (Text × Text) → List Text
  sorted_lines failures =
      map (λ n. line n (elim (lookup n failures) [ none ↦ [] | some reason ↦ reason ]))
        (sort_strings (map (λ e. e.0) failures))

  -- The outcome of an update that the agent answered.
  pub count_update : ContainerResult → Outcome → Outcome
  unfolding container_result_failures
  count_update res out =
      let failures = container_result_failures res in
      let counted = record out {
        updated = out.updated + length res.updated;
        updated_names = out.updated_names ++ res.updated;
        unchanged = out.unchanged + length res.unchanged;
        skipped = out.skipped + length res.skipped;
        failed = out.failed + length failures;
        failures = out.failures ++ sorted_lines failures;
      } in
      if not (text_eq res.err [])
      then fail (node_line res.err) counted
      else if not res.ok && is_empty failures
      then fail (node_line (codes "agent reported failure")) counted
      else counted

  -- What follows the agent's answer to the update of `plain`.
  pub update_answered : List Cand → State → Answer → State
  unfolding count_update
  update_answered plain (out, done) (broke e) = (
    record out {
      failed = out.failed + length plain;
      failures = out.failures ++ map (λ n. line n (codes "update failed: " ++ e)) (names_of plain);
    },
    done ++ update_sent (ids_of plain) ∷ [],
  )
  update_answered plain (out, done) (answered res) = (
    count_update res out,
    done
        ++ update_sent (ids_of plain)
          ∷ invalidate_containers (ids_of plain ++ names_of plain ++ res.updated)
          ∷ [],
  )

  -- The one request for the candidates without a new image.
  pub update_plain : List Cand → State → State
  unfolding update_answered
  update_plain [] st = st
  update_plain (c ∷ plain) st = update_answered (c ∷ plain) st (env.update (ids_of (c ∷ plain)))

  -- From the classification on.
  pub update_candidates : List ScanItem → Outcome → State
  unfolding resolve run_upgrades update_plain
  update_candidates items out =
      let (descs, part) = classify_update_candidates items in
      let (resolved, cands) = resolve descs (add_counts part out) in
      let (st, plain) = run_upgrades cands (resolved, []) in finish (update_plain plain st)

  -- What follows the scan.
  pub run_scan : List Text → Scan → State
  unfolding select_items update_candidates
  run_scan allow (scan_failed e) =
      if is_missing_docker_socket_scan_error e
      then (record no_outcome { unavailable = true }, invalidate_scan ∷ [])
      else (fail (node_line (codes "scan failed: " ++ e)) no_outcome, invalidate_scan ∷ [])
  run_scan allow (scanned_items items) =
      let out = record no_outcome { scanned = length items } in
      let (selected, out') = select_items allow items (record out { scan_complete = true }) in
      if not env.cache_saved
      then (fail (node_line (codes "scan cache update failed")) out, invalidate_scan ∷ [])
      else update_candidates selected out'

  -- What follows GetNode.
  pub run_version : List Text → Option Text → State
  unfolding run_scan
  run_version allow none = (fail (node_line (codes "node metadata unavailable")) no_outcome, [])
  run_version allow (some version) =
      if not (scheduler_agent_version_at_least version 2 4 0)
      then (
        fail (node_line (codes "agent must be upgraded to 2.4.0 for read-only update scans"))
            no_outcome,
        invalidate_scan ∷ [],
      )
      else run_scan allow env.scan

  pub run_container_update_node : List Text → State
  unfolding run_version
  run_container_update_node allow = run_version allow env.version
