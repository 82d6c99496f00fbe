-- ===== src/Scheduler/Updates/Outcomes.antt =====
-- What the outcome of a node's update run says.
use bastion_hub.Prelude.{
  ℕ, suc, ◌+◌, ◌≤◌, ◌≡◌, refl, ap, sym, ◌∙◌, true, false, ◌&&◌, not, Option, none, some, List, [],
  ◌∷◌, ◌++◌, map, arith, Text, text_eq, length, length-append, if_both,
}
use bastion_hub.Scheduler.Policy.{ScanItem, CandDesc, classify_update_candidates}
use bastion_hub.Scheduler.Backups.{is_empty}
use bastion_hub.Scheduler.Reconcile.{sort_strings}
use bastion_hub.Scheduler.Reconcile.Names.{length-sort_strings}
use bastion_hub.Scheduler.Answers.{
  ContainerResult, Answer, answered, broke, Scan, scanned_items, scan_failed, NodeEnv, Effect,
  Outcome, State, no_outcome, container_result_failures, fail,
}
use bastion_hub.Scheduler.Updates.{
  Cand, resolve, count_upgrade, count_upgraded, count_failures, upgrade_one, upgrade_answered,
  update_answered, run_upgrades, count_update, update_plain, update_candidates, select_items,
  run_scan, run_version, run_container_update_node, failure_lines, sorted_lines, names_of, ids_of,
  finish, add_counts,
}
use bastion_hub.Scheduler.Versions.{
  scheduler_agent_version_at_least, is_missing_docker_socket_scan_error,
}

-- A run that was not stopped for a missing Docker; each counted failure has its line.
abbrev pub Tallied : Outcome → Type 0
Tallied out = (out.unavailable ≡ false) × (out.failed ≤ length out.failures)

length-map {ℓ κ} :
    {A : Type ℓ} {B : Type κ} (f : A → B) (xs : List A) → length (map f xs) ≡ length xs
length-map f [] = refl
length-map f (x ∷ xs) = ap suc (length-map f xs)

more_lines :
    (xs ys : List Text) {n k : ℕ} → n ≤ length xs → k ≡ length ys → n + k ≤ length (xs ++ ys)
more_lines xs ys h e = omega (arith, h, e, length-append xs ys)

one_line : (xs : List Text) (x : Text) {n : ℕ} → n ≤ length xs → suc n ≤ length (xs ++ x ∷ [])
one_line xs x h = omega (arith, h, length-append xs (x ∷ []))

spare_line : (xs : List Text) (x : Text) {n : ℕ} → n ≤ length xs → n ≤ length (xs ++ x ∷ [])
spare_line xs x h = omega (arith, h, length-append xs (x ∷ []))

module _ (env : NodeEnv) (node : Text) where
  resolve-Tallied :
      (descs : List CandDesc) (out : Outcome) → Tallied out → Tallied (resolve env node descs out).0
  unfolding resolve
  resolve-Tallied [] out t = t
  resolve-Tallied (d ∷ descs) out t =
      if_both (λ (r : Outcome × List Cand). Tallied r.0) (text_eq (env.id_by_name d.name) [])
        (resolve-Tallied descs _ (t.0, one_line out.failures _ t.1)) (resolve-Tallied descs out t)

  count_upgraded-Tallied :
      (c : Cand) (res : ContainerResult) (out : Outcome)
      → Tallied out
      → Tallied (count_upgraded env node c res out)
  unfolding count_upgraded
  count_upgraded-Tallied c res out t = if_both Tallied _ (t.0, t.1) (t.0, t.1)

  count_failures-Tallied :
      (c : Cand) (res : ContainerResult) (out : Outcome)
      → Tallied out
      → Tallied (count_failures env node c res out)
  unfolding count_failures
  count_failures-Tallied c res out t =
      let failures = container_result_failures res in
      let counted =
        more_lines out.failures (failure_lines env node failures) t.1
          (sym (length-map _ failures)) in
      if_both Tallied (not (text_eq res.err [])) (t.0, spare_line _ _ counted)
        (if_both Tallied (not res.ok && (is_empty failures && is_empty res.updated))
          (t.0, spare_line _ _ counted) (t.0, counted))

  upgrade_answered-Tallied :
      (c : Cand) (st : State) (a : Answer)
      → Tallied st.0
      → Tallied (upgrade_answered env node c st a).0
  unfolding upgrade_answered count_upgrade
  upgrade_answered-Tallied c (out, done) (broke e) t = (t.0, one_line out.failures _ t.1)
  upgrade_answered-Tallied c (out, done) (answered res) t =
      count_failures-Tallied c res (count_upgraded env node c res out)
        (count_upgraded-Tallied c res out t)

  run_upgrades-Tallied :
      (cands : List Cand) (st : State) → Tallied st.0 → Tallied (run_upgrades env node cands st).0.0
  unfolding run_upgrades upgrade_one
  run_upgrades-Tallied [] st t = t
  run_upgrades-Tallied (c ∷ cands) st t =
      if_both (λ (r : State × List Cand). Tallied r.0.0) (not (text_eq c.suggested []))
        (run_upgrades-Tallied cands (upgrade_one env node c st)
          (upgrade_answered-Tallied c st (env.upgrade c.id c.suggested) t))
        (run_upgrades-Tallied cands st t)

  length-sorted_lines :
      (failures : List (Text × Text)) → length failures ≡ length (sorted_lines env node failures)
  length-sorted_lines failures = sym (
      length-map _ (sort_strings (map (λ e. e.0) failures))
      ∙ length-sort_strings (map (λ e. e.0) failures)
      ∙ length-map _ failures)

  count_update-Tallied :
      (res : ContainerResult) (out : Outcome)
      → Tallied out
      → Tallied (count_update env node res out)
  unfolding count_update
  count_update-Tallied res out t =
      let failures = container_result_failures res in
      let counted =
        more_lines out.failures (sorted_lines env node failures) t.1
          (length-sorted_lines failures) in
      if_both Tallied (not (text_eq res.err [])) (t.0, spare_line _ _ counted)
        (if_both Tallied (not res.ok && is_empty failures) (t.0, spare_line _ _ counted)
          (t.0, counted))

  update_answered-Tallied :
      (plain : List Cand) (st : State) (a : Answer)
      → Tallied st.0
      → Tallied (update_answered env node plain st a).0
  unfolding update_answered
  update_answered-Tallied plain (out, done) (broke e) t = (
    t.0,
    more_lines out.failures _ t.1 (sym (length-map _ (names_of plain) ∙ length-map _ plain)),
  )
  update_answered-Tallied plain (out, done) (answered res) t = count_update-Tallied res out t

  update_plain-Tallied :
      (plain : List Cand) (st : State) → Tallied st.0 → Tallied (update_plain env node plain st).0
  unfolding update_plain
  update_plain-Tallied [] st t = t
  update_plain-Tallied (c ∷ plain) st t =
      update_answered-Tallied (c ∷ plain) st (env.update (ids_of (c ∷ plain))) t

-- A run says that it succeeded exactly when Docker was there and no failure has a line.
abbrev pub Honest : Outcome → Type 0
Honest out =
    (out.succeeded ≡ (not out.unavailable && is_empty out.failures))
    × (out.failed ≤ length out.failures)

finish-Honest : (st : State) → Tallied st.0 → Honest (finish st).0
finish-Honest (out, done) t = (rw (t.0) refl, t.1)

select_items-Tallied :
    (allow : List Text) (items : List ScanItem) (out : Outcome)
    → Tallied out
    → Tallied (select_items allow items out).1
unfolding select_items
select_items-Tallied [] items out t = t
select_items-Tallied (a ∷ allow) items out t = (t.0, t.1)

-- The same of a state.
HonestRun : State → Type 0
HonestRun st = Honest st.0

HonestRun-intro : (st : State) → Honest st.0 → HonestRun st
unfolding HonestRun
HonestRun-intro st h = h

HonestRun-elim : (st : State) → HonestRun st → Honest st.0
unfolding HonestRun
HonestRun-elim st h = h

stopped-Honest :
    (reason : Text) (n : ℕ) (done : List Effect)
    → HonestRun (fail reason (record no_outcome { scanned = n }), done)
unfolding HonestRun
stopped-Honest reason n done = (refl, omega arith)

unavailable-Honest :
    (done : List Effect) → HonestRun (record no_outcome { unavailable = true }, done)
unfolding HonestRun
unavailable-Honest done = (refl, omega arith)

module _ (env : NodeEnv) (node : Text) where
  update_candidates-Honest :
      (items : List ScanItem) (out : Outcome)
      → Tallied out
      → Honest (update_candidates env node items out).0
  unfolding update_candidates
  update_candidates-Honest items out t =
      let (descs, part) = classify_update_candidates items in
      let (resolved, cands) = resolve env node descs (add_counts part out) in
      let (st, plain) = run_upgrades env node cands (resolved, []) in
      finish-Honest (update_plain env node plain st) (
        update_plain-Tallied env node plain st (
          run_upgrades-Tallied env node cands (resolved, [])
            (resolve-Tallied env node descs (add_counts part out) t)))

  run_scan-Honest : (allow : List Text) (scan : Scan) → HonestRun (run_scan env node allow scan)
  unfolding run_scan
  run_scan-Honest allow (scan_failed e) =
      if_both HonestRun (is_missing_docker_socket_scan_error e) (unavailable-Honest _)
        (stopped-Honest _ 0 _)
  run_scan-Honest allow (scanned_items items) =
      let out = record no_outcome { scanned = length items; scan_complete = true } in
      if_both HonestRun (not env.cache_saved) (stopped-Honest _ (length items) _) (
        HonestRun-intro _ (
          update_candidates-Honest (select_items allow items out).0 (select_items allow items out).1
            (select_items-Tallied allow items out (refl, omega arith))))

  run_version-Honest :
      (allow : List Text) (version : Option Text) → HonestRun (run_version env node allow version)
  unfolding run_version
  run_version-Honest allow none = stopped-Honest _ 0 _
  run_version-Honest allow (some version) =
      if_both HonestRun (not (scheduler_agent_version_at_least version 2 4 0))
        (stopped-Honest _ 0 _) (run_scan-Honest allow env.scan)

  -- Whatever the node, its store and its agent answer, a node's update run reports success exactly
  -- when Docker was there and it has no failure line, and it has a line for each failure it counts.
  pub run_container_update_node-Honest :
      (allow : List Text) → Honest (run_container_update_node env node allow).0
  unfolding run_container_update_node
  run_container_update_node-Honest allow =
      HonestRun-elim (run_version env node allow env.version) (run_version-Honest allow env.version)
