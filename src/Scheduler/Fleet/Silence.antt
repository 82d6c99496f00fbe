-- ===== src/Scheduler/Fleet/Silence.antt =====
-- When a scheduled container update is reported.
use bastion_hub.Prelude.{
  ◌≡◌, refl, ap, ◌∙◌, arith, Bool, true, false, ◌&&◌, ◌||◌, not, Option, none, some, List, [], ◌∷◌,
  ◌++◌, map, Text, codes, any, ltb, length, Bool-cases, inl, inr, if◌then◌else◌,
}
use bastion_hub.Scheduler.Answers.{NodeEnv, Outcome}
use bastion_hub.Scheduler.Backups.{is_empty}
use bastion_hub.Scheduler.Fleet.{
  ContainerCfg, Stats, no_stats, note_node, note_offline, arrow, add_outcome, add_outcomes,
  relinked_by_node, removed_by_node, container_update_report_worth_sending, note_save, outcome_of,
  update_nodes,
}

-- An outcome with something to say: a node without Docker, an update, a failure, or a change of the
-- plan after a complete scan.
abbrev pub has_news : Outcome → Bool
has_news o =
    o.unavailable
    || ltb 0 o.updated
    || ltb 0 o.failed
    || not (is_empty o.failures)
    || (o.scan_complete && (not (is_empty o.relinked) || not (is_empty o.removed)))

is_empty-append :
    {A : Type 0} → (xs ys : List A) → is_empty (xs ++ ys) ≡ (is_empty xs && is_empty ys)
is_empty-append [] ys = refl
is_empty-append (x ∷ xs) ys = refl

is_empty-map : {A B : Type 0} → (f : A → B) (xs : List A) → is_empty (map f xs) ≡ is_empty xs
is_empty-map f [] = refl
is_empty-map f (x ∷ xs) = refl

is_empty_if :
    {A : Type 0}
    → (b : Bool) (xs ys : List A)
    → is_empty (if b then xs else ys) ≡ (if b then is_empty xs else is_empty ys)
is_empty_if true xs ys = refl
is_empty_if false xs ys = refl

worth_sending-note_node :
    (online : Bool) (nid : Text) (st : Stats)
    → container_update_report_worth_sending (note_node online nid st)
      ≡ (container_update_report_worth_sending st || not online)
unfolding note_node container_update_report_worth_sending
worth_sending-note_node true nid st = ground arith
worth_sending-note_node false nid st = ground (arith, is_empty-append st.offline (nid ∷ []))

worth_sending-note_offline :
    (online : Text → Bool) (nids : List Text) (st : Stats)
    → container_update_report_worth_sending (note_offline online nids st)
      ≡ (container_update_report_worth_sending st || any (λ nid. not (online nid)) nids)
unfolding note_offline
worth_sending-note_offline online [] st = ground arith
worth_sending-note_offline online (nid ∷ nids) st =
    worth_sending-note_offline online nids (note_node (online nid) nid st)
    ∙ ground (arith, worth_sending-note_node (online nid) nid st)

worth_sending-add_outcome :
    (nid : Text) (o : Outcome) (st : Stats)
    → container_update_report_worth_sending (add_outcome nid o st)
      ≡ (container_update_report_worth_sending st || has_news o)
unfolding add_outcome container_update_report_worth_sending
worth_sending-add_outcome nid o st = ground (
  arith,
  is_empty_if o.scan_complete (st.relinked ++ map (arrow nid) o.relinked) st.relinked,
  is_empty_if o.scan_complete (st.removed ++ map (λ name. nid ++ codes "/" ++ name) o.removed)
      st.removed,
  is_empty_if o.unavailable (st.unavailable ++ nid ∷ []) st.unavailable,
  is_empty-append st.relinked (map (arrow nid) o.relinked),
  is_empty-map (arrow nid) o.relinked,
  is_empty-append st.removed (map (λ name. nid ++ codes "/" ++ name) o.removed),
  is_empty-map (λ name. nid ++ codes "/" ++ name) o.removed,
  is_empty-append st.failures o.failures,
  is_empty-append st.unavailable (nid ∷ []),
)

worth_sending-add_outcomes :
    (ended : List (Text × Outcome)) (st : Stats)
    → container_update_report_worth_sending (add_outcomes ended st)
      ≡ (container_update_report_worth_sending st || any (λ e. has_news e.1) ended)
unfolding add_outcomes
worth_sending-add_outcomes [] st = ground arith
worth_sending-add_outcomes ((nid, o) ∷ ended) st =
    worth_sending-add_outcomes ended (add_outcome nid o st)
    ∙ ground (arith, worth_sending-add_outcome nid o st)

changed-has_news :
    (ended : List (Text × Outcome))
    → (not (is_empty (relinked_by_node ended)) || not (is_empty (removed_by_node ended))) ≡ true
    → any (λ e. has_news e.1) ended ≡ true
unfolding relinked_by_node removed_by_node
changed-has_news [] h = cc
changed-has_news ((nid, o) ∷ ended) h = elim (Bool-cases (has_news o)) [
  | inl news ↦ ground (arith, news)
  | inr news ↦
      let quiet : (o.scan_complete && not (is_empty o.relinked)) ≡ false = ground (arith, news) in
      let quiet' : (o.scan_complete && not (is_empty o.removed)) ≡ false = ground (arith, news) in
      ground (arith, news, changed-has_news ended (rw (quiet, quiet') at h))
]

worth_sending-note_save :
    (changed : Bool) (e : Option Text) (st : Stats)
    → (changed ≡ true → container_update_report_worth_sending st ≡ true)
    → container_update_report_worth_sending (note_save changed e st)
      ≡ container_update_report_worth_sending st
unfolding note_save container_update_report_worth_sending
worth_sending-note_save changed none st h = refl
worth_sending-note_save changed (some e) st h = elim (Bool-cases changed) [
  | inl c ↦
      rw c (ground (arith, h c, is_empty-append st.failures ((codes "计划自动清理保存失败: " ++ e) ∷ [])))
  | inr c ↦ rw c refl
]

quiet_start :
    {A : Type 0}
    → (xs : List A) {b : Bool}
    → (container_update_report_worth_sending (no_stats (length xs)) || b) ≡ b
unfolding container_update_report_worth_sending
quiet_start xs = refl

-- A run of runContainerUpdate over some nodes is reported exactly if one of them is offline or the
-- outcome of one that is updated has news; an error in saving the plan changes nothing in that.
pub update_nodes_reported :
    (id_by_name name_by_id : Text → Text → Text) (online : Text → Bool) (env : Text → NodeEnv)
    (save_err : Option Text) (done : List Text) (cfg : ContainerCfg) (enabled : Bool)
    (allow : List (Text × List Text)) (nids : List Text)
    → (update_nodes id_by_name name_by_id online env save_err done cfg enabled allow nids).reported
      ≡ (any (λ nid. not (online nid)) nids
          || any
              (λ e. has_news e.1)
              (map (outcome_of id_by_name name_by_id online env save_err allow) done))
unfolding update_nodes
update_nodes_reported id_by_name name_by_id online env save_err done cfg enabled allow nids =
    let ended = map (outcome_of id_by_name name_by_id online env save_err allow) done in
    let start = note_offline online nids (no_stats (length nids)) in
    let st =
      worth_sending-add_outcomes ended start
      ∙ ap (λ b. b || any (λ e. has_news e.1) ended)
          (worth_sending-note_offline online nids (no_stats (length nids)) ∙ quiet_start nids) in
    worth_sending-note_save
      (not (is_empty (relinked_by_node ended)) || not (is_empty (removed_by_node ended))) save_err
      (add_outcomes ended start) (λ c. ground (arith, st, changed-has_news ended c))
    ∙ st
