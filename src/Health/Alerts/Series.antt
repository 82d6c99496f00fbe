-- ===== src/Health/Alerts/Series.antt =====
-- Series of polls: what the polls of a node announce for one rule of the table is what the rule's own
-- state machine sends.
use bastion_hub.Prelude.{
  ℕ, ◌+◌, ◌≡◌, refl, sym, ap, subst, ◌∙◌, true, false, inl, inr, List, [], ◌∷◌, ◌++◌, map, arith,
  Text, text_eq, text_eq_refl, text_eq_comm, filter, length, Bool-cases,
}
use bastion_hub.Health.Alerts.{Float64, Sample, Alert, Breach, is_polled, poll_node}
use bastion_hub.Health.Alerts.Evaluation.{
  Away, DistinctIds, step_alert, id-step_alert, polled_row, sent_for, Away-polled_row,
  poll_node_exact,
}

-- The polls in their order: the time and the sample of each.
abbrev pub Polls : Type 0 → Type 0
Polls F = List (ℕ × Sample F)

module _ {F : Type 0} (id : Text) where
  -- The number of notifications of one rule.
  abbrev pub count_for : List (Breach F) → ℕ
  count_for sent = length (filter (λ b. text_eq b.alert id) sent)

  count_for-append : (xs ys : List (Breach F)) → count_for (xs ++ ys) ≡ count_for xs + count_for ys
  count_for-append [] ys = omega arith
  count_for-append (x ∷ xs) ys = ground (arith, count_for-append xs ys)

  Distinct-middle :
      (pre post : List (Alert F)) (a : Alert F)
      → DistinctIds (pre ++ a ∷ post)
      → Away a.id pre × Away a.id post
  Distinct-middle [] post a d = (tt, d.0)
  Distinct-middle (b ∷ pre) post a d =
      let rest = Distinct-middle pre post a d.1 in
      ((text_eq_comm b.id a.id ∙ apart pre d.0, rest.0), rest.1)
    where
      apart : (xs : List (Alert F)) → Away b.id (xs ++ a ∷ post) → text_eq a.id b.id ≡ false
      apart [] h = h.0
      apart (x ∷ xs) h = apart xs h.1

module _ {F : Type 0} (fl : Float64 F) where
  -- The number of notifications that a rule sends over a series of polls.
  unfoldable pub notified : Alert F → Polls F → ℕ
  notified a [] = 0
  notified a ((now, sample) ∷ polls) =
      length (step_alert fl now sample a).1 + notified (step_alert fl now sample a).0 polls

  -- The number of notifications for a rule that the polls of a node send, each on the table that the
  -- one before has left.
  pub announced : Text → Text → List (Alert F) → Polls F → ℕ
  announced node id table [] = 0
  announced node id table ((now, sample) ∷ polls) =
      let (table', sent) = poll_node fl now node sample table in
      count_for id sent + announced node id table' polls

  count_for-other :
      (id : Text) (now : ℕ) (sample : Sample F) (b : Alert F)
      → text_eq b.id id ≡ false
      → count_for id (step_alert fl now sample b).1 ≡ 0
  count_for-other id now sample b h = ground (arith, h)

  count_for-own :
      (now : ℕ) (sample : Sample F) (a : Alert F)
      → count_for a.id (step_alert fl now sample a).1 ≡ length (step_alert fl now sample a).1
  count_for-own now sample a = ground (arith, text_eq_refl a.id)

  is_polled-step_alert :
      (node : Text) (now : ℕ) (sample : Sample F) (a : Alert F)
      → is_polled node (step_alert fl now sample a).0 ≡ is_polled node a
  is_polled-step_alert node now sample a = ground arith

  module _ (now : ℕ) (sample : Sample F) (node : Text) where
    count_for-Away :
        (id : Text) (rows : List (Alert F))
        → Away id rows
        → count_for id (sent_for fl now sample node rows) ≡ 0
    count_for-Away id [] h = refl
    count_for-Away id (b ∷ rows) h = elim (Bool-cases (is_polled node b)) [
      | inl on ↦ rw on (
          omega (
            arith,
            count_for-append id (step_alert fl now sample b).1 (sent_for fl now sample node rows),
            count_for-other id now sample b h.0,
            count_for-Away id rows h.1,
          ))
      | inr off ↦ rw off (count_for-Away id rows h.1)
    ]

    count_for-middle :
        (pre post : List (Alert F)) (a : Alert F)
        → Away a.id pre
        → Away a.id post
        → is_polled node a ≡ true
        → count_for a.id (sent_for fl now sample node (pre ++ a ∷ post))
          ≡ length (step_alert fl now sample a).1
    count_for-middle [] post a h k on = rw on (
        omega (
          arith,
          count_for-append a.id (step_alert fl now sample a).1 (sent_for fl now sample node post),
          count_for-own now sample a,
          count_for-Away a.id post k,
        ))
    count_for-middle (b ∷ pre) post a h k on = elim (Bool-cases (is_polled node b)) [
      | inl p ↦ rw p (
          omega (
            arith,
            count_for-append a.id (step_alert fl now sample b).1
                (sent_for fl now sample node (pre ++ a ∷ post)),
            count_for-other a.id now sample b h.0,
            count_for-middle pre post a h.1 k on,
          ))
      | inr p ↦ rw p (count_for-middle pre post a h.1 k on)
    ]

    id-row : (b : Alert F) → (polled_row fl now sample node b).id ≡ b.id
    id-row b = elim (Bool-cases (is_polled node b)) [
      | inl p ↦ rw p (id-step_alert fl now sample b)
      | inr p ↦ rw p refl
    ]

    Away-rows :
        (id : Text) (rows : List (Alert F))
        → Away id rows
        → Away id (map (polled_row fl now sample node) rows)
    Away-rows id [] h = tt
    Away-rows id (b ∷ rows) h = (ap (λ i. text_eq i id) (id-row b) ∙ h.0, Away-rows id rows h.1)

    Distinct-rows :
        (rows : List (Alert F))
        → DistinctIds rows
        → DistinctIds (map (polled_row fl now sample node) rows)
    Distinct-rows [] d = tt
    Distinct-rows (b ∷ rows) d = (
      Away-rows (polled_row fl now sample node b).id rows
          (Away-polled_row fl now sample node b rows d.0),
      Distinct-rows rows d.1,
    )

    rows-append :
        (pre post : List (Alert F)) (a : Alert F)
        → is_polled node a ≡ true
        → map (polled_row fl now sample node) (pre ++ a ∷ post)
          ≡ map (polled_row fl now sample node) pre
            ++ (step_alert fl now sample a).0 ∷ map (polled_row fl now sample node) post
    rows-append [] post a on = rw on refl
    rows-append (b ∷ pre) post a on =
        ap (λ l. polled_row fl now sample node b ∷ l) (rows-append pre post a on)

  -- In a table of distinct ids, an enabled rule of the node announces what its state machine sends.
  pub announced-notified :
      (node : Text) (a : Alert F) (pre post : List (Alert F)) (polls : Polls F)
      → DistinctIds (pre ++ a ∷ post)
      → is_polled node a ≡ true
      → announced node a.id (pre ++ a ∷ post) polls ≡ notified a polls
  unfolding announced notified
  announced-notified node a pre post [] d on = refl
  announced-notified node a pre post ((now, sample) ∷ polls) d on =
      let (in_pre, in_post) = Distinct-middle a.id pre post a d in
      let split = rows-append now sample node pre post a on in
      let next = (step_alert fl now sample a).0 in
      let ih =
        announced-notified node next (map (polled_row fl now sample node) pre)
          (map (polled_row fl now sample node) post) polls
          (subst DistinctIds split (Distinct-rows now sample node (pre ++ a ∷ post) d))
          (is_polled-step_alert node now sample a ∙ on) in
      let sent = count_for-middle now sample node pre post a in_pre in_post on in
      let rows =
        map (polled_row fl now sample node) pre
        ++ next ∷ map (polled_row fl now sample node) post in
      let same = ap (λ i. announced node i rows polls) (sym (id-step_alert fl now sample a)) ∙ ih in
      rw (poll_node_exact fl now node sample (pre ++ a ∷ post) d, sent, split)
        (ap (λ n. length (step_alert fl now sample a).1 + n) same)
