-- ===== src/Scheduler/Updates/Requests.antt =====
-- What a node's update run asks of the agent.
use bastion_hub.Prelude.{
  ◌≡◌, refl, sym, Bool, true, false, not, Option, none, some, List, [], ◌∷◌, map, arith, Text,
  text_eq, text_eq_refl, filter, filter-true, All, All-append, if◌then◌else◌, if_known, if_both,
  length,
}
use bastion_hub.Scheduler.Policy.{ScanItem, CandDesc, describe, classify_update_candidates}
use bastion_hub.Scheduler.Policy.Candidates.{wanted, name-describe, descs-classify}
use bastion_hub.Scheduler.Reconcile.{holds, reconcile_configured_container_names}
use bastion_hub.Scheduler.Versions.{
  scheduler_agent_version_at_least, is_missing_docker_socket_scan_error,
}
use bastion_hub.Scheduler.Answers.{
  Answer, answered, broke, Scan, scanned_items, scan_failed, NodeEnv, Effect, invalidate_scan,
  invalidate_containers, upgrade_sent, update_sent, Outcome, State, no_outcome,
}
use bastion_hub.Scheduler.Updates.{
  Cand, resolve, upgrade_one, upgrade_answered, run_upgrades, update_plain, update_answered,
  update_candidates, select_items, run_scan, run_version, run_container_update_node, ids_of,
  add_counts,
}

abbrev pub wanted_names : List ScanItem → List Text
wanted_names items = map (λ it. it.name) (filter wanted items)

module _ (env : NodeEnv) (names : List Text) where
  -- The id is the current one of a container with one of the names.
  abbrev pub Sanctioned : Text → Type 0
  Sanctioned id =
      (name : Text) × (id ≡ env.id_by_name name)
      × (text_eq id [] ≡ false)
      × (holds name names ≡ true)

  abbrev pub Allowed : Effect → Type 0
  Allowed (upgrade_sent id image) = Sanctioned id
  Allowed (update_sent ids) = All Sanctioned ids
  Allowed (invalidate_containers refs) = Unit
  Allowed invalidate_scan = Unit

  module _ (node : Text) where
    resolve-Sanctioned :
        (descs : List CandDesc) (out : Outcome)
        → All (λ d. holds d.name names ≡ true) descs
        → All (λ c. Sanctioned c.id) (resolve env node descs out).1
    unfolding resolve
    resolve-Sanctioned [] out h = tt
    resolve-Sanctioned (d ∷ descs) out h =
        if_known (λ (r : Outcome × List Cand). All (λ c. Sanctioned c.id) r.1)
          (text_eq (env.id_by_name d.name) []) (λ e. resolve-Sanctioned descs _ h.1)
          (λ e. ((d.name, refl, e, h.0), resolve-Sanctioned descs out h.1))

    upgrade_answered-Allowed :
        (c : Cand) (st : State) (a : Answer)
        → Sanctioned c.id
        → All Allowed st.1
        → All Allowed (upgrade_answered env node c st a).1
    unfolding upgrade_answered
    upgrade_answered-Allowed c (out, done) (broke e) s h = All-append Allowed done _ h (s, tt)
    upgrade_answered-Allowed c (out, done) (answered res) s h =
        All-append Allowed done _ h (s, (tt, tt))

    run_upgrades-Allowed :
        (cands : List Cand) (st : State)
        → All (λ c. Sanctioned c.id) cands
        → All Allowed st.1
        → All Allowed (run_upgrades env node cands st).0.1
          × All (λ c. Sanctioned c.id) (run_upgrades env node cands st).1
    unfolding run_upgrades upgrade_one
    run_upgrades-Allowed [] st s h = (h, tt)
    run_upgrades-Allowed (c ∷ cands) st s h =
        let (done, plain) = run_upgrades-Allowed cands st s.1 h in
        if_both (λ (r : State × List Cand). All Allowed r.0.1 × All (λ c. Sanctioned c.id) r.1)
          (not (text_eq c.suggested []))
          (run_upgrades-Allowed cands (upgrade_one env node c st) s.1
            (upgrade_answered-Allowed c st (env.upgrade c.id c.suggested) s.0 h))
          (done, (s.0, plain))

    All-ids_of :
        (plain : List Cand) → All (λ c. Sanctioned c.id) plain → All Sanctioned (ids_of plain)
    All-ids_of [] s = tt
    All-ids_of (c ∷ plain) s = (s.0, All-ids_of plain s.1)

    update_answered-Allowed :
        (plain : List Cand) (st : State) (a : Answer)
        → All (λ c. Sanctioned c.id) plain
        → All Allowed st.1
        → All Allowed (update_answered env node plain st a).1
    unfolding update_answered
    update_answered-Allowed plain (out, done) (broke e) s h =
        All-append Allowed done _ h (All-ids_of plain s, tt)
    update_answered-Allowed plain (out, done) (answered res) s h =
        All-append Allowed done _ h (All-ids_of plain s, (tt, tt))

    update_plain-Allowed :
        (plain : List Cand) (st : State)
        → All (λ c. Sanctioned c.id) plain
        → All Allowed st.1
        → All Allowed (update_plain env node plain st).1
    unfolding update_plain
    update_plain-Allowed [] st s h = h
    update_plain-Allowed (c ∷ plain) st s h =
        update_answered-Allowed (c ∷ plain) st (env.update (ids_of (c ∷ plain))) s h

described-held :
    (items : List ScanItem)
    → All (λ d. holds d.name (map (λ it. it.name) items) ≡ true) (map describe items)
described-held items = later items (map (λ it. it.name) items) (λ n h. h)
  where
    later :
        (items : List ScanItem) (names : List Text)
        → ((n : Text) → holds n (map (λ it. it.name) items) ≡ true → holds n names ≡ true)
        → All (λ d. holds d.name names ≡ true) (map describe items)
    later [] names h = tt
    later (it ∷ items) names h = (
      rw (name-describe it) (h it.name (ground (arith, text_eq_refl it.name))),
      later items names (λ n k. h n (ground (arith, k))),
    )

-- A relation between two conditionals on one test, the second negated.
if_not {ℓ} :
    {A B : Type 0} (R : A → B → Type ℓ) (b : Bool) {x y : A} {u v : B}
    → R x v
    → R y u
    → R (if b then x else y) (if not b then u else v)
if_not R true h k = h
if_not R false h k = k

-- A name that the schedule allows: any on a schedule without configured names, and else an effective
-- one of the configured names in the scan.
abbrev pub configured : List Text → List ScanItem → Text → Bool
configured [] items name = true
configured (a ∷ allow) items name =
    holds name
      (reconcile_configured_container_names (a ∷ allow) (map (λ it. it.name) items)).effective

filter-wanted :
    (p : Text → Bool) (items : List ScanItem)
    → wanted_names (filter (λ it. p it.name) items) ≡ filter p (wanted_names items)
filter-wanted p [] = refl
filter-wanted p (it ∷ items) = ground (arith, filter-wanted p items)

module _ (env : NodeEnv) (node : Text) where
  update_candidates-Allowed :
      (items : List ScanItem) (out : Outcome)
      → All (Allowed env (wanted_names items)) (update_candidates env node items out).1
  unfolding update_candidates
  update_candidates-Allowed items out =
      let names = wanted_names items in
      let (descs, part) = classify_update_candidates items in
      let (resolved, cands) = resolve env node descs (add_counts part out) in
      let (st, plain) = run_upgrades env node cands (resolved, []) in
      let held : All (λ d. holds d.name names ≡ true) descs =
        rw (descs-classify items) (described-held (filter wanted items)) in
      let (done, left) =
        run_upgrades-Allowed env names node cands (resolved, [])
          (resolve-Sanctioned env names node descs (add_counts part out) held) tt in
      update_plain-Allowed env names node plain st left done

  -- The names that a run may ask for: none unless the agent is new enough, its scan is complete and was
  -- stored; then those of the scanned items that the update policy wants, and of these, on a selective
  -- schedule, the ones that the configured names lead to in the scan.
  abbrev pub names_after_scan : List Text → Scan → List Text
  names_after_scan allow (scan_failed e) = []
  names_after_scan allow (scanned_items items) =
      if env.cache_saved then filter (configured allow items) (wanted_names items) else []

  abbrev pub names_for : List Text → Option Text → List Text
  names_for allow none = []
  names_for allow (some version) =
      if scheduler_agent_version_at_least version 2 4 0 then names_after_scan allow env.scan else []

  AllAllowed : List Text → State → Type 0
  AllAllowed names st = All (Allowed env names) st.1

  AllAllowed-intro :
      (names : List Text) (st : State) → All (Allowed env names) st.1 → AllAllowed names st
  unfolding AllAllowed
  AllAllowed-intro names st h = h

  AllAllowed-elim :
      (names : List Text) (st : State) → AllAllowed names st → All (Allowed env names) st.1
  unfolding AllAllowed
  AllAllowed-elim names st h = h

  selected-wanted :
      (allow : List Text) (items : List ScanItem) (out : Outcome)
      → wanted_names (select_items allow items out).0
        ≡ filter (configured allow items) (wanted_names items)
  unfolding select_items
  selected-wanted [] items out = sym (filter-true (wanted_names items))
  selected-wanted (a ∷ allow) items out = filter-wanted (configured (a ∷ allow) items) items

  update_selected-Allowed :
      (allow : List Text) (items : List ScanItem) (out out' : Outcome)
      → AllAllowed
          (filter (configured allow items) (wanted_names items))
          (update_candidates env node (select_items allow items out).0 out')
  update_selected-Allowed allow items out out' = rw (sym (selected-wanted allow items out)) (
      AllAllowed-intro (wanted_names (select_items allow items out).0) _
        (update_candidates-Allowed (select_items allow items out).0 out'))

  run_scan-Allowed :
      (allow : List Text) (scan : Scan)
      → AllAllowed (names_after_scan allow scan) (run_scan env node allow scan)
  unfolding run_scan
  run_scan-Allowed allow (scan_failed e) =
      if_both (AllAllowed []) (is_missing_docker_socket_scan_error e)
        (AllAllowed-intro [] _ (tt, tt)) (AllAllowed-intro [] _ (tt, tt))
  run_scan-Allowed allow (scanned_items items) =
      let out = record no_outcome { scanned = length items; scan_complete = true } in
      if_not AllAllowed env.cache_saved
        (update_selected-Allowed allow items out (select_items allow items out).1)
        (AllAllowed-intro [] _ (tt, tt))

  run_version-Allowed :
      (allow : List Text) (version : Option Text)
      → AllAllowed (names_for allow version) (run_version env node allow version)
  unfolding run_version
  run_version-Allowed allow none = AllAllowed-intro [] _ tt
  run_version-Allowed allow (some version) =
      if_not AllAllowed (scheduler_agent_version_at_least version 2 4 0)
        (run_scan-Allowed allow env.scan) (AllAllowed-intro [] _ (tt, tt))

  -- An update or upgrade is requested only of an agent of at least version 2.4.0 whose scan is complete
  -- and was stored, and only by the current id of a container that the update policy wants and, on a
  -- selective schedule, whose name is an effective one of the configured names in that scan.
  pub run_container_update_node-Allowed :
      (allow : List Text)
      → All (Allowed env (names_for allow env.version)) (run_container_update_node env node allow).1
  unfolding run_container_update_node
  run_container_update_node-Allowed allow =
      AllAllowed-elim (names_for allow env.version) (run_version env node allow env.version)
        (run_version-Allowed allow env.version)
