-- ===== src/Backup/Restore/Tally.antt =====
-- The rows that a node's restores leave, and the node's tallies.
use bastion_hub.Prelude.{
  ℕ, suc, ◌+◌, ◌≡◌, refl, ap, sym, ◌∙◌, arith, Bool, false, List, [], ◌∷◌, ◌++◌, append_assoc, map,
  any, filter, length, Text, text_eq, Option, not, Bool-cases, inl, inr, subst, All, length-map,
  append-nil,
}
use bastion_hub.Backup.Jobs.{RestoreJob, create_restore_job}
use bastion_hub.Backup.Restore.{
  status_ok, Turn, State, job_of, broadcast_restore_job, run_task, run_node_restore,
}
use bastion_hub.Backup.Restore.Drain.{
  row_after, proceed-table, Ended, row_after-Ended, restored, row_after-restored, row_after-id,
}

module _ (decode : Text → Option Text) (target agent_version actor : Text) where
  abbrev pub started_row : Turn → RestoreJob
  started_row t = record (job_of decode target agent_version actor t) {
    id = t.new_id;
    started_at = t.started;
  }

  -- The row that a task leaves.
  pub final_row : Turn → RestoreJob
  final_row t = row_after t.ensured t.send_err t (started_row t)

  -- A task whose id is new adds one row, and counts as ok when the row's status is.
  run_task-table :
      (t : Turn) (s : State)
      → text_eq t.new_id [] ≡ false
      → any (λ r. text_eq r.id t.new_id) s.table ≡ false
      → (run_task decode target agent_version actor t s).1.table ≡ s.table ++ final_row t ∷ []
        × (run_task decode target agent_version actor t s).0
          ≡ text_eq (final_row t).status status_ok
  unfolding run_task create_restore_job final_row job_of broadcast_restore_job text_eq
  run_task-table t s named absent =
      proceed-table t.ensured t.send_err t (started_row t) _ s.table absent refl (rw absent refl)

  pub final_row-id : (t : Turn) → (final_row t).id ≡ t.new_id
  unfolding final_row
  final_row-id t = row_after-id t.ensured t.send_err t (started_row t)

  final_row-Ended : (t : Turn) → Ended (final_row t)
  unfolding final_row
  final_row-Ended t = row_after-Ended t.ensured t.send_err t (started_row t)

  -- Each task has an id of its own, which no row has.
  abbrev pub Fresh : List Turn → List RestoreJob → Type 0
  Fresh [] table = Unit
  Fresh (t ∷ ts) table =
      (text_eq t.new_id [] ≡ false × any (λ r. text_eq r.id t.new_id) table ≡ false)
      × Fresh ts (table ++ final_row t ∷ [])

  abbrev pub is_ok : RestoreJob → Bool
  is_ok j = text_eq j.status status_ok

  run_node_restore-table :
      (ts : List Turn) (ok fail : ℕ) (s : State)
      → Fresh ts s.table
      → (run_node_restore decode target agent_version actor ts ok fail s).0
          ≡ ok + length (filter is_ok (map final_row ts))
        × (run_node_restore decode target agent_version actor ts ok fail s).1
          ≡ fail + length (filter (λ j. not (is_ok j)) (map final_row ts))
        × (run_node_restore decode target agent_version actor ts ok fail s).2.table
          ≡ s.table ++ map final_row ts
  unfolding run_node_restore
  run_node_restore-table [] ok fail s fresh = (omega arith, omega arith, sym (append-nil s.table))
  run_node_restore-table (t ∷ ts) ok fail s fresh =
      let one = run_task-table t s fresh.0.0 fresh.0.1 in
      let after = run_task decode target agent_version actor t s in
      let new = subst (λ (tb : List RestoreJob). Fresh ts tb) (sym one.0) fresh.1 in
      let joined = λ (rows : List RestoreJob) (e : rows ≡ after.1.table ++ map final_row ts).
        e
        ∙ ap (λ (tb : List RestoreJob). tb ++ map final_row ts) one.0
        ∙ append_assoc s.table (final_row t ∷ []) (map final_row ts) in
      elim (Bool-cases (is_ok (final_row t))) [
        | inl h ↦
            let rest = run_node_restore-table ts (suc ok) fail after.1 new in
            rw (one.1, h) (omega (arith, rest.0), rest.1, joined _ rest.2)
        | inr h ↦
            let rest = run_node_restore-table ts ok (suc fail) after.1 new in
            rw (one.1, h) (rest.0, omega (arith, rest.1), joined _ rest.2)
      ]

  ok_and_rest :
      (rows : List RestoreJob)
      → length (filter is_ok rows) + length (filter (λ j. not (is_ok j)) rows) ≡ length rows
  ok_and_rest [] = omega arith
  ok_and_rest (j ∷ rows) = ground (arith, ok_and_rest rows)

  rows-Ended : (ts : List Turn) → All Ended (map final_row ts)
  rows-Ended [] = tt
  rows-Ended (t ∷ ts) = (final_row-Ended t, rows-Ended ts)

  rows-restored :
      (ts : List Turn)
      → length (filter is_ok (map final_row ts))
        ≡ length (filter (λ t. restored t.ensured t.send_err t.messages) ts)
  unfolding final_row
  rows-restored [] = refl
  rows-restored (t ∷ ts) =
      ground (arith, row_after-restored t.ensured t.send_err t (started_row t), rows-restored ts)

  -- If each task of a node has a new id, runNodeRestore adds one row for each task and changes no
  -- other. Each of these rows has a terminal status. The two tallies add up to the number of the
  -- tasks, and the first is the number of those whose archive was there, whose request was sent and
  -- whose first final answer is a success that made a container.
  pub run_node_restore_exact :
      (ts : List Turn) (s : State)
      → Fresh ts s.table
      → (run_node_restore decode target agent_version actor ts 0 0 s).0
          ≡ length (filter (λ t. restored t.ensured t.send_err t.messages) ts)
        × (run_node_restore decode target agent_version actor ts 0 0 s).0
            + (run_node_restore decode target agent_version actor ts 0 0 s).1
          ≡ length ts
        × (run_node_restore decode target agent_version actor ts 0 0 s).2.table
          ≡ s.table ++ map final_row ts
        × All Ended (map final_row ts)
  run_node_restore_exact ts s fresh =
      let run = run_node_restore-table ts 0 0 s fresh in
      (
        omega (arith, run.0, rows-restored ts),
        omega (arith, run.0, run.1, ok_and_rest (map final_row ts), length-map final_row ts),
        run.2,
        rows-Ended ts,
      )
