-- ===== src/Health/Alerts/Evaluation.antt =====
-- One poll of a node, seen from the rows of the table: each rule of the node makes one step of its
-- own state machine, and every other row stays as it is.
use bastion_hub.Prelude.{
  ℕ, ◌≡◌, refl, sym, ap, ◌∙◌, false, ◌&&◌, not, none, some, inl, inr, List, [], ◌∷◌, ◌++◌, map,
  append-nil, append_assoc, arith, Text, text_eq, text_eq_iff, filter, ltb, ◌==◌, if◌then◌else◌,
  All, All-append, Bool-cases,
}
use bastion_hub.Health.Alerts.{
  Float64, Sample, Alert, Breach, value, touched, touch_health_alert_state, window_over, is_polled,
  effective_threshold, evaluate_alert, evaluate, poll_node,
}

module _ {F : Type 0} where
  -- No row has this id.
  abbrev pub Away : Text → List (Alert F) → Type 0
  Away id table = All (λ b. text_eq b.id id ≡ false) table

  -- The primary key: no two rows share an id.
  abbrev pub DistinctIds : List (Alert F) → Type 0
  DistinctIds [] = Unit
  DistinctIds (a ∷ table) = Away a.id table × DistinctIds table

  touch-Away :
      (id : Text) (x y : ℕ) (table : List (Alert F))
      → Away id table
      → touch_health_alert_state id x y table ≡ table
  unfolding touch_health_alert_state
  touch-Away id x y [] h = refl
  touch-Away id x y (a ∷ table) h = rw (h.0, touch-Away id x y table h.1) refl

  touch-middle :
      (x y : ℕ) (a : Alert F) (pre post : List (Alert F))
      → Away a.id pre
      → Away a.id post
      → touch_health_alert_state a.id x y (pre ++ a ∷ post) ≡ pre ++ touched x y a ∷ post
  unfolding touch_health_alert_state
  touch-middle x y a [] post h k =
      rw ((text_eq_iff a.id a.id).1 refl, touch-Away a.id x y post k) refl
  touch-middle x y a (b ∷ pre) post h k = rw (h.0, touch-middle x y a pre post h.1 k) refl

module _ {F : Type 0} (fl : Float64 F) where
  open fl use {gt}

  -- The state machine of one rule.
  abbrev pub step_alert : ℕ → Sample F → Alert F → Alert F × List (Breach F)
  step_alert now sample a = elim (value sample a.metric) [
    | none ↦ (a, [])
    | some v ↦
        let limit = effective_threshold fl a sample in
        let breaching = gt v limit in
        if breaching && a.breach_since == 0
        then (touched now 0 a, [])
        else if breaching
            && (window_over a.breach_since a.window_sec now && ltb a.last_notified a.breach_since)
        then (
          touched a.breach_since now a,
          record { alert = a.id; measured = v; limit = limit } ∷ [],
        )
        else if not breaching && not (a.breach_since == 0)
        then (touched 0 0 a, [])
        else (a, [])
  ]

  evaluate_alert-step :
      (now : ℕ) (sample : Sample F) (a : Alert F) (pre post : List (Alert F))
      (sent : List (Breach F))
      → Away a.id pre
      → Away a.id post
      → evaluate_alert fl now sample a (pre ++ a ∷ post, sent)
        ≡ (pre ++ (step_alert now sample a).0 ∷ post, sent ++ (step_alert now sample a).1)
  unfolding evaluate_alert
  evaluate_alert-step now sample a pre post sent h k = ground (
    arith,
    touch-middle now 0 a pre post h k,
    touch-middle a.breach_since now a pre post h k,
    touch-middle 0 0 a pre post h k,
    append-nil sent,
  )

  pub id-step_alert :
      (now : ℕ) (sample : Sample F) (a : Alert F) → (step_alert now sample a).0.id ≡ a.id
  id-step_alert now sample a = ground arith

  module _ (now : ℕ) (sample : Sample F) (node : Text) where
    -- What a poll makes of a row, and what it sends for it.
    abbrev pub polled_row : Alert F → Alert F
    polled_row a = if is_polled node a then (step_alert now sample a).0 else a

    abbrev pub sent_for : List (Alert F) → List (Breach F)
    sent_for [] = []
    sent_for (a ∷ table) =
        (if is_polled node a then (step_alert now sample a).1 else []) ++ sent_for table

    -- Rows in front, already polled, that share no id with the rows behind.
    abbrev Apart : List (Alert F) → List (Alert F) → Type 0
    Apart pre rest = All (λ b. Away b.id rest) pre

    Away-front : (a : Alert F) (pre rows : List (Alert F)) → Apart pre (a ∷ rows) → Away a.id pre
    Away-front a [] rows h = tt
    Away-front a (b ∷ pre) rows h = (
      ground (arith, h.0.0, text_eq_iff a.id b.id, text_eq_iff b.id a.id),
      Away-front a pre rows h.1,
    )

    Apart-tail : (a : Alert F) (pre rows : List (Alert F)) → Apart pre (a ∷ rows) → Apart pre rows
    Apart-tail a [] rows h = tt
    Apart-tail a (b ∷ pre) rows h = (h.0.1, Apart-tail a pre rows h.1)

    pub Away-polled_row :
        (a : Alert F) (rows : List (Alert F)) → Away a.id rows → Away (polled_row a).id rows
    Away-polled_row a rows h = elim (Bool-cases (is_polled node a)) [
      | inl e ↦ rw e (rw (id-step_alert now sample a) h)
      | inr e ↦ rw e h
    ]

    poll-head :
        (pre rows : List (Alert F)) (a : Alert F) (sent : List (Breach F))
        → Away a.id pre
        → Away a.id rows
        → evaluate fl now sample (filter (is_polled node) (a ∷ rows)) (pre ++ a ∷ rows, sent)
          ≡ evaluate fl now sample (filter (is_polled node) rows) (
            pre ++ polled_row a ∷ rows,
            sent ++ (if is_polled node a then (step_alert now sample a).1 else []),
          )
    unfolding evaluate
    poll-head pre rows a sent h k = elim (Bool-cases (is_polled node a)) [
      | inl e ↦ rw e (
          ap (evaluate fl now sample (filter (is_polled node) rows))
            (evaluate_alert-step now sample a pre rows sent h k))
      | inr e ↦ rw e (
          ap (λ x. evaluate fl now sample (filter (is_polled node) rows) (pre ++ a ∷ rows, x))
            (sym (append-nil sent)))
    ]

    poll-rest :
        (pre rest : List (Alert F)) (sent : List (Breach F))
        → Apart pre rest
        → DistinctIds rest
        → evaluate fl now sample (filter (is_polled node) rest) (pre ++ rest, sent)
          ≡ (pre ++ map polled_row rest, sent ++ sent_for rest)
    poll-rest pre [] sent h d = unfold evaluate in (rw (append-nil sent) refl)
    poll-rest pre (a ∷ rows) sent h d =
        poll-head pre rows a sent (Away-front a pre rows h) d.0
        ∙ ap (λ x. evaluate fl now sample (filter (is_polled node) rows) (x, later))
            (sym (append_assoc pre (polled_row a ∷ []) rows))
        ∙ poll-rest (pre ++ polled_row a ∷ []) rows later
            (All-append _ pre (polled_row a ∷ []) (Apart-tail a pre rows h)
              (Away-polled_row a rows d.0, tt))
            d.1
        ∙ simp (append_assoc)
      where
        later : List (Breach F)
        later = sent ++ (if is_polled node a then (step_alert now sample a).1 else [])

  -- A poll of a node advances each enabled rule of that node by one step of its state machine, sends
  -- exactly the notifications of those steps, in the order of the table, and leaves all other rows
  -- as they are.
  pub poll_node_exact :
      (now : ℕ) (node : Text) (sample : Sample F) (table : List (Alert F))
      → DistinctIds table
      → poll_node fl now node sample table
        ≡ (map (polled_row now sample node) table, sent_for now sample node table)
  unfolding poll_node
  poll_node_exact now node sample table d = poll-rest now sample node [] table [] tt d
