-- ===== src/Scheduler/Reports/Runs.antt =====
-- Batches, reports and the timer in any order.
mod Tests
use bastion_hub.Prelude.{
  ℕ, suc, ◌+◌, ◌-◌, ◌≤◌, ◌<◌, ◌≡◌, ◌≢◌, refl, ap, sym, ◌∙◌, Bool, true, false, not, ◌⊎◌, inl, inr,
  List, [], ◌∷◌, ◌++◌, append-nil, append_assoc, arith, Text, ltb, length, if◌then◌else◌, if_both,
}
use bastion_hub.Scheduler.Reports.{
  Section, Reports, track_backup_start, queue_backup_report, flush_backup_reports, merge,
}

-- What happens: a batch starts, a batch ends with its section, the timer fires, or a call of the flush
-- that was already on its way when its timer was stopped gets the lock.
pub data Happening (R D : Type 0) : Type 0 where
  starts : Happening R D
  ends : Section R D → Happening R D
  fires : Happening R D
  late_flush : Happening R D

-- The reports with the messages sent so far, each as the sections that it merges.
abbrev pub State : Type 0 → Type 0 → Type 0
State R D = Reports R D × List (List (Section R D))

module _ {R D : Type 0} where
  abbrev send : List (List (Section R D)) → Reports R D × List (Section R D) → State R D
  send sent (r, []) = (r, sent)
  send sent (r, s ∷ sections) = (r, sent ++ (s ∷ sections) ∷ [])

  pub happen : Happening R D → State R D → State R D
  unfolding track_backup_start queue_backup_report flush_backup_reports
  happen starts (r, sent) = (track_backup_start r, sent)
  happen (ends section) (r, sent) = (queue_backup_report section r, sent)
  happen fires (r, sent) =
      if r.timer_armed
      then send sent (flush_backup_reports (record r { timer_armed = false }))
      else (r, sent)
  happen late_flush (r, sent) = send sent (flush_backup_reports r)

  pub run : List (Happening R D) → State R D → State R D
  run [] st = st
  run (h ∷ hs) st = run hs (happen h st)

  -- The sections of the batches that ended, in their order.
  abbrev pub ended : List (Happening R D) → List (Section R D)
  ended [] = []
  ended (ends s ∷ hs) = s ∷ ended hs
  ended (starts ∷ hs) = ended hs
  ended (fires ∷ hs) = ended hs
  ended (late_flush ∷ hs) = ended hs

  abbrev pub concat : List (List (Section R D)) → List (Section R D)
  concat [] = []
  concat (m ∷ ms) = m ++ concat ms

  -- All sections that a state accounts for: sent, then pending.
  abbrev pub accounted : State R D → List (Section R D)
  accounted (r, sent) = concat sent ++ r.pending

  -- Sections wait only for a batch that runs, or for a timer that is set.
  pub record Inv (st : State R D) : Type 0 where
    pub notifies : st.0.has_notifier ≡ true
    pub awaited : (st.0.pending ≡ []) ⊎ ((0 < st.0.in_flight) ⊎ (st.0.timer_armed ≡ true))

  concat-append :
      (ms : List (List (Section R D))) (m : List (Section R D))
      → concat (ms ++ m ∷ []) ≡ concat ms ++ m
  concat-append [] m = append-nil m
  concat-append (x ∷ ms) m =
      ap (λ r. x ++ r) (concat-append ms m) ∙ sym (append_assoc x (concat ms) m)

  flush-Inv :
      (r : Reports R D) (p : List (Section R D)) (sent : List (List (Section R D)))
      → r.has_notifier ≡ true
      → r.pending ≡ p
      → Inv (send sent (flush_backup_reports r))
  unfolding flush_backup_reports
  flush-Inv r [] sent n e = ground arith
  flush-Inv r (s ∷ p) sent n e = ground arith

  flush-accounted :
      (r : Reports R D) (p : List (Section R D)) (sent : List (List (Section R D)))
      → r.has_notifier ≡ true
      → r.pending ≡ p
      → accounted (send sent (flush_backup_reports r)) ≡ concat sent ++ r.pending
  unfolding flush_backup_reports
  flush-accounted r [] sent n e = ground arith
  flush-accounted r (s ∷ p) sent n e =
      ground (arith, concat-append sent (s ∷ p), append-nil (concat sent ++ s ∷ p))

  happen-Inv : (h : Happening R D) (st : State R D) → Inv st → Inv (happen h st)
  unfolding happen
  happen-Inv starts (r, sent) i = ground (arith, i)
  happen-Inv (ends s) (r, sent) i = ground (arith, i)
  happen-Inv fires (r, sent) i =
      if_both Inv r.timer_armed
        (flush-Inv (record r { timer_armed = false }) r.pending sent i.notifies refl) i
  happen-Inv late_flush (r, sent) i = flush-Inv r r.pending sent i.notifies refl

  happen-accounted :
      (h : Happening R D) (st : State R D)
      → Inv st
      → accounted (happen h st) ≡ accounted st ++ ended (h ∷ [])
  unfolding happen
  happen-accounted starts (r, sent) i = sym (append-nil (concat sent ++ r.pending))
  happen-accounted (ends s) (r, sent) i =
      ground (arith, i, append_assoc (concat sent) r.pending (s ∷ []))
  happen-accounted fires (r, sent) i =
      if_both (λ (st : State R D). accounted st ≡ (concat sent ++ r.pending) ++ []) r.timer_armed
        (flush-accounted (record r { timer_armed = false }) r.pending sent i.notifies refl ∙ same)
        same
    where
      same : concat sent ++ r.pending ≡ (concat sent ++ r.pending) ++ []
      same = sym (append-nil (concat sent ++ r.pending))
  happen-accounted late_flush (r, sent) i =
      flush-accounted r r.pending sent i.notifies refl ∙ sym (append-nil (concat sent ++ r.pending))

  run-Inv : (hs : List (Happening R D)) (st : State R D) → Inv st → Inv (run hs st)
  unfolding run
  run-Inv [] st i = i
  run-Inv (h ∷ hs) st i = run-Inv hs (happen h st) (happen-Inv h st i)

  ended-cons :
      (h : Happening R D) (hs : List (Happening R D)) → ended (h ∷ hs) ≡ ended (h ∷ []) ++ ended hs
  ended-cons starts hs = refl
  ended-cons (ends s) hs = refl
  ended-cons fires hs = refl
  ended-cons late_flush hs = refl

  run-accounted :
      (hs : List (Happening R D)) (st : State R D)
      → Inv st
      → accounted (run hs st) ≡ accounted st ++ ended hs
  unfolding run
  run-accounted [] st i = sym (append-nil (accounted st))
  run-accounted (h ∷ hs) st i =
      run-accounted hs (happen h st) (happen-Inv h st i)
      ∙ ap (λ x. x ++ ended hs) (happen-accounted h st i)
      ∙ append_assoc (accounted st) (ended (h ∷ [])) (ended hs)
      ∙ ap (λ x. accounted st ++ x) (sym (ended-cons h hs))

  abbrev pub idle_reports : Reports R D
  idle_reports = record { has_notifier = true; pending = []; timer_armed = false; in_flight = 0 }

  drained :
      (r : Reports R D) (p : List (Section R D)) (sent : List (List (Section R D)))
      → Inv (r, sent)
      → r.pending ≡ p
      → r.in_flight ≡ 0
      → (happen fires (r, sent)).0.pending ≡ []
  unfolding happen flush_backup_reports
  drained r [] sent i e quiet = ground (arith, i, e, quiet)
  drained r (s ∷ p) sent i e quiet = ground (arith, i, e, quiet)

  start-Inv : Inv (idle_reports, [])
  start-Inv = record { notifies = refl; awaited = inl refl }

  -- Whatever the order in which batches start and end, timers fire and late flushes run: each report
  -- section is in exactly one of the messages or still pending, and all are in the order in which
  -- their batches ended.
  pub reports_accounted :
      (hs : List (Happening R D)) → accounted (run hs (idle_reports, [])) ≡ ended hs
  reports_accounted hs = run-accounted hs (idle_reports, []) start-Inv

  -- When no batch is in flight any more, the next firing of the timer sends what is left: the messages
  -- then hold all sections, each once.
  pub reports_sent :
      (hs : List (Happening R D))
      → (run hs (idle_reports, [])).0.in_flight ≡ 0
      → concat (happen fires (run hs (idle_reports, []))).1 ≡ ended hs
  reports_sent hs quiet =
      let st = run hs (idle_reports, []) in
      let i = run-Inv hs (idle_reports, []) start-Inv in
      let after = happen fires st in
      let empty = drained st.0 st.0.pending st.1 i refl quiet in
      sym (append-nil (concat after.1))
      ∙ ap (λ x. concat after.1 ++ x) (sym empty)
      ∙ happen-accounted fires st i
      ∙ append-nil (accounted st)
      ∙ reports_accounted hs
