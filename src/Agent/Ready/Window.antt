-- ===== src/Agent/Ready/Window.antt =====
-- When the wait ends with a container that is ready.
use bastion_hub.Prelude.{
  ℕ, ◌+◌, ◌≤◌, ◌≡◌, ◌⊎◌, ◌==◌, refl, ap, sym, subst, ◌∙◌, true, false, List, [], ◌∷◌, ◌++◌, Text,
  codes, text_eq, Option, none, some, All, All-append, inl, inr, arith, append_assoc, Bool-cases,
}
use bastion_hub.Agent.Ready.{
  Runtime, Inspected, failed, seen, Poll, Wait, waits, ready, fails, judge, judge_health,
  judge_stable, turn_over, wait_stable, wait_container_ready, since_or, no_health_stability_window,
}

-- A turn that finds the container running, with no health check.
abbrev pub Calm : Poll → Type 0
Calm p = (s : Runtime) × (p.answer ≡ seen s) × (s.running ≡ true) × (text_eq s.health [] ≡ true)

abbrev pub began : List Poll → Option ℕ
began [] = none
began (p ∷ ps) = some p.now

-- A turn may end the wait with the container: it is healthy, or it has run without a health check
-- since the time given, for long enough.
abbrev pub Settled : ℕ → Option ℕ → Poll → Runtime → Type 0
Settled stable_for since p s =
    (p.answer ≡ seen s)
    × (s.running ≡ true)
    × ((text_eq s.health (codes "healthy") ≡ true)
        ⊎ ((text_eq s.health [] ≡ true) × (since_or since p.now + stable_for ≤ p.now)))

-- One of the turns may, after an unbroken run of calm ones.
abbrev pub SettledIn : ℕ → List Poll → Runtime → Type 0
SettledIn stable_for polls s =
    (before : List Poll) × (run : List Poll) × (p : Poll) × (rest : List Poll) × (polls
      ≡ before ++ (run ++ p ∷ rest))
    × All Calm run
    × Settled stable_for (began run) p s

turn_over-ready :
    (x : Wait) (ref : Text) (ended : Option Text) (next : Option ℕ → Wait) (s : Runtime)
    → turn_over x ref ended next ≡ ready s
    → (x ≡ ready s) ⊎ ((t : Option ℕ) × (x ≡ waits t) × (next t ≡ ready s))
unfolding turn_over
turn_over-ready (waits t) ref none next s h = inr (t, refl, h)
turn_over-ready (waits t) ref (some e) next s h = ground (arith, h)
turn_over-ready (fails e) ref ended next s h = ground (arith, h)
turn_over-ready (ready r) ref ended next s h = inl h

began-append :
    (past : List Poll) (p : Poll) → began (past ++ p ∷ []) ≡ some (since_or (began past) p.now)
unfolding since_or
began-append [] p = refl
began-append (q ∷ past) p = refl

module _ (w : ℕ) (positive : (w == 0) ≡ false) (ref : Text) where
  judge_stable-ready :
      (since now : ℕ) (r s : Runtime)
      → judge_stable w since now r ≡ ready s
      → (r ≡ s) × (since + w ≤ now)
  unfolding judge_stable
  judge_stable-ready since now r s h = (ground (arith, h, positive), ground (arith, h, positive))

  judge_stable-waits :
      (since now : ℕ) (r : Runtime) (t : Option ℕ)
      → judge_stable w since now r ≡ waits t
      → t ≡ some since
  unfolding judge_stable
  judge_stable-waits since now r t h = ground (arith, h)

  judge_health-ready :
      (since : Option ℕ) (now : ℕ) (r s : Runtime)
      → judge_health w ref since now r ≡ ready s
      → (r ≡ s)
        × ((text_eq r.health (codes "healthy") ≡ true)
            ⊎ ((text_eq r.health [] ≡ true) × (since_or since now + w ≤ now)))
  unfolding judge_health
  judge_health-ready since now r s h =
      let stable = judge_stable-ready (since_or since now) now r s in ground (arith, h, stable)

  judge_health-waits :
      (since t : Option ℕ) (now : ℕ) (r : Runtime)
      → judge_health w ref since now r ≡ waits t
      → (t ≡ none) ⊎ ((text_eq r.health [] ≡ true) × (t ≡ some (since_or since now)))
  unfolding judge_health
  judge_health-waits since t now r h =
      let stable = judge_stable-waits (since_or since now) now r t in ground (arith, h, stable)

  judge-ready :
      (since : Option ℕ) (p : Poll) (s : Runtime)
      → judge w ref since p.now p.answer ≡ ready s
      → Settled w since p s
  unfolding judge
  judge-ready since p s h = answered p.answer refl h
    where
      answered :
          (a : Inspected) → p.answer ≡ a → judge w ref since p.now a ≡ ready s → Settled w since p s
      answered (failed e) q k = ground (arith, k)
      answered (seen r) q k =
          let healthy = judge_health-ready since p.now r s in
          elim (Bool-cases r.running) [
            | inl on ↦
                let (same, by) = healthy (ground (arith, k, on)) in
                subst (Settled w since p) same (q, on, by)
            | inr off ↦ ground (arith, k, off)
          ]

  judge-waits :
      (since t : Option ℕ) (p : Poll)
      → judge w ref since p.now p.answer ≡ waits t
      → (t ≡ none) ⊎ (Calm p × (t ≡ some (since_or since p.now)))
  unfolding judge
  judge-waits since t p h = answered p.answer refl h
    where
      answered :
          (a : Inspected)
          → p.answer ≡ a
          → judge w ref since p.now a ≡ waits t
          → (t ≡ none) ⊎ (Calm p × (t ≡ some (since_or since p.now)))
      answered (failed e) q k = ground (arith, k)
      answered (seen r) q k = elim (Bool-cases r.running) [
        | inl on ↦ elim (judge_health-waits since t p.now r (ground (arith, k, on))) [
          | inl gone ↦ inl gone
          | inr (calm, at) ↦ inr ((r, q, on, calm), at)
        ]
        | inr off ↦ ground (arith, k, off)
      ]

  settled_later :
      (before ps : List Poll) (s : Runtime) → SettledIn w ps s → SettledIn w (before ++ ps) s
  settled_later before ps s (b, r, q, rest, parts, calm, ok) = (
    before ++ b,
    r,
    q,
    rest,
    ap (λ l. before ++ l) parts ∙ sym (append_assoc before b _),
    calm,
    ok,
  )

  wait_stable-ready :
      (past ps : List Poll) (s : Runtime)
      → All Calm past
      → wait_stable w ref ps (began past) ≡ ready s
      → SettledIn w (past ++ ps) s
  unfolding wait_stable turn_over
  wait_stable-ready past [] s calm h = ground (arith, h)
  wait_stable-ready past (p ∷ ps) s calm h =
      let extended : (past ++ p ∷ []) ++ ps ≡ past ++ p ∷ ps = append_assoc past (p ∷ []) ps in
      elim (turn_over-ready (judge w ref (began past) p.now p.answer) ref p.ended
        (wait_stable w ref ps) s h) [
          | inl now ↦ ([], past, p, ps, refl, calm, judge-ready (began past) p s now)
          | inr (t, goes_on, k) ↦
              subst (λ l. SettledIn w l s) extended
                (elim (judge-waits (began past) t p goes_on) [
                  | inl gone ↦ settled_later (past ++ p ∷ []) ps s (
                      wait_stable-ready [] ps s tt
                        (subst (λ t. wait_stable w ref ps t ≡ ready s) gone k))
                  | inr (c, at) ↦
                      wait_stable-ready (past ++ p ∷ []) ps s
                        (All-append Calm past (p ∷ []) calm (c, tt))
                        (subst (λ t. wait_stable w ref ps t ≡ ready s)
                          (at ∙ sym (began-append past p)) k)
                ])
        ]

-- A wait ends with a container that is ready only at a turn that finds it running, and either healthy
-- or without a health check; in the second case all turns of an unbroken run just before that one
-- have found it so too, of which the first, or that turn itself, is five seconds old or more.
pub wait_container_ready-SettledIn :
    (ref : Text) (polls : List Poll) (s : Runtime)
    → wait_container_ready ref polls ≡ ready s
    → SettledIn no_health_stability_window polls s
unfolding wait_container_ready
wait_container_ready-SettledIn ref polls s h =
    wait_stable-ready no_health_stability_window refl ref [] polls s tt h
