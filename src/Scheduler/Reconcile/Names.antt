-- ===== src/Scheduler/Reconcile/Names.antt =====
-- What a scan makes of the configured names.
use bastion_hub.Prelude.{
  ◌≡◌, refl, Bool, true, false, ◌||◌, ◌⊎◌, inl, inr, List, [], ◌∷◌, map, arith, Text, text_eq,
  text_eq_iff, filter, All, Bool-cases, if_both, length, ap, ◌∙◌, suc,
}
use bastion_hub.Scheduler.Reconcile.{
  normalize_compose_container_name, holds, current_names, by_normalized, Verdict, kept, relinked_to,
  gone, verdict, Reconciled, reconcile_from, reconcile_configured_container_names, sort_strings,
  insert_sorted, set_add, sole_match, text_leb,
}

holds-filter :
    (p : Text → Bool) (x : Text) (xs : List Text)
    → holds x (filter p xs) ≡ true
    → (holds x xs ≡ true) × (p x ≡ true)
holds-filter p x [] h = cc
holds-filter p x (y ∷ ys) h = ground (arith, holds-filter p x ys, text_eq_iff y x)

sole_match-one : (c m : Text) (ms : List Text) → sole_match c ms ≡ relinked_to m → ms ≡ m ∷ []
sole_match-one c m [] h = cc
sole_match-one c m (x ∷ []) h = ground arith
sole_match-one c m (x ∷ y ∷ ms) h = cc

-- A relinking is to a scanned name that differs in '_' and '-' alone.
verdict-relinked :
    (current : List Text) (c m : Text)
    → verdict current c ≡ relinked_to m
    → (holds m current ≡ true)
      × (normalize_compose_container_name m ≡ normalize_compose_container_name c)
      × (holds c current ≡ false)
unfolding verdict
verdict-relinked current c m h =
    let key = normalize_compose_container_name c in
    let sole : holds c current ≡ false → by_normalized current key ≡ m ∷ [] =
      λ miss. sole_match-one c m (by_normalized current key) (rw miss at h) in
    ground (arith, sole, found, text_eq_iff (normalize_compose_container_name m) key)
  where
    found :
        by_normalized current (normalize_compose_container_name c) ≡ m ∷ []
        → (holds m current ≡ true)
          × (text_eq (normalize_compose_container_name m) (normalize_compose_container_name c)
              ≡ true)
    found e =
        holds-filter
          (λ n. text_eq (normalize_compose_container_name n) (normalize_compose_container_name c)) m
          current (rw e (ground (arith, text_eq_iff m m)))

sole_match-kept : (c : Text) (ms : List Text) → sole_match c ms ≡ kept → holds c ms ≡ true
sole_match-kept c [] h = cc
sole_match-kept c (m ∷ []) h = ground arith
sole_match-kept c (m ∷ n ∷ ms) h = cc

verdict-kept : (current : List Text) (c : Text) → verdict current c ≡ kept → holds c current ≡ true
unfolding verdict
verdict-kept current c h = elim (Bool-cases (holds c current)) [
  | inl e ↦ e
  | inr e ↦
      (holds-filter
        (λ n. text_eq (normalize_compose_container_name n) (normalize_compose_container_name c)) c
        current
        (sole_match-kept c (by_normalized current (normalize_compose_container_name c))
          (rw e at h))).0
]

verdict-gone : (current : List Text) (c : Text) → verdict current c ≡ gone → holds c current ≡ false
unfolding verdict
verdict-gone current c h = ground arith

abbrev pub Scanned : List Text → Text → Type 0
Scanned current n = holds n current ≡ true

abbrev pub Unscanned : List Text → Text → Type 0
Unscanned current n = holds n current ≡ false

-- A relinking is to a scanned name, from one that the scan does not have, and the two differ in
-- '_' and '-' alone.
abbrev pub Migrated : List Text → Text × Text → Type 0
Migrated current e =
    (holds e.1 current ≡ true)
    × (normalize_compose_container_name e.1 ≡ normalize_compose_container_name e.0)
    × (holds e.0 current ≡ false)

abbrev pub IsSoundFor : List Text → Reconciled → Type 0
IsSoundFor current r =
    All (Scanned current) r.effective
    × All (Migrated current) r.relinked
    × All (Unscanned current) r.removed

Verdict-cases : (v : Verdict) → (v ≡ kept) ⊎ (((m : Text) × (v ≡ relinked_to m)) ⊎ (v ≡ gone))
Verdict-cases kept = inl refl
Verdict-cases (relinked_to m) = inr (inl (m, refl))
Verdict-cases gone = inr (inr refl)

All-set_add :
    (P : Text → Type 0) (x : Text) (xs : List Text) → P x → All P xs → All P (set_add x xs)
All-set_add P x xs p h = if_both (All P) (holds x xs) h (p, h)

reconcile_from-IsSoundFor :
    (current allow : List Text) → IsSoundFor current (reconcile_from current allow)
unfolding reconcile_from
reconcile_from-IsSoundFor current [] = (tt, tt, tt)
reconcile_from-IsSoundFor current (c ∷ allow) =
    let (a, b, d) = reconcile_from-IsSoundFor current allow in
    let effective = (reconcile_from current allow).effective in
    elim (Verdict-cases (verdict current c)) [
      | inl e ↦
          rw (e, reconcile_from)
            (All-set_add (Scanned current) c effective (verdict-kept current c e) a, b, d)
      | inr (inl (m, e)) ↦
          let moved = verdict-relinked current c m e in
          rw (e, reconcile_from)
            (All-set_add (Scanned current) m effective moved.0 a, (moved, b), d)
      | inr (inr e) ↦ rw (e, reconcile_from) (a, b, (verdict-gone current c e, d))
    ]

All-insert_sorted {ℓ} :
    (P : Text → Type ℓ) (x : Text) (xs : List Text) → P x → All P xs → All P (insert_sorted x xs)
unfolding insert_sorted
All-insert_sorted P x [] p h = (p, tt)
All-insert_sorted P x (y ∷ ys) p h =
    if_both (All P) (text_leb x y) (p, h) (h.0, All-insert_sorted P x ys p h.1)

All-sort_strings : (P : Text → Type 0) (xs : List Text) → All P xs → All P (sort_strings xs)
unfolding sort_strings
All-sort_strings P [] h = tt
All-sort_strings P (x ∷ xs) h =
    All-insert_sorted P x (sort_strings xs) h.0 (All-sort_strings P xs h.1)

length-insert_sorted : (x : Text) (xs : List Text) → length (insert_sorted x xs) ≡ suc (length xs)
unfolding insert_sorted
length-insert_sorted x [] = refl
length-insert_sorted x (y ∷ ys) =
    if_both (λ (zs : List Text). length zs ≡ suc (suc (length ys))) (text_leb x y) refl
      (ap suc (length-insert_sorted x ys))

pub length-sort_strings : (xs : List Text) → length (sort_strings xs) ≡ length xs
unfolding sort_strings
length-sort_strings [] = refl
length-sort_strings (x ∷ xs) =
    length-insert_sorted x (sort_strings xs) ∙ ap suc (length-sort_strings xs)

-- What is reported of the configured names is so in the complete scan: an effective name is in the
-- scan; a relinked one is, too, while its old name is not and differs from it in '_' and '-'
-- alone; no removed name is in the scan.
reconcile_sound :
    (allow names : List Text)
    → IsSoundFor (current_names names) (reconcile_configured_container_names allow names)
unfolding reconcile_configured_container_names
reconcile_sound allow names =
    let r = reconcile_from (current_names names) allow in
    let (a, b, d) = reconcile_from-IsSoundFor (current_names names) allow in
    (a, b, All-sort_strings (Unscanned (current_names names)) r.removed d)

holds-insert_sorted :
    (c x : Text) (xs : List Text) → holds c (insert_sorted x xs) ≡ (text_eq x c || holds c xs)
unfolding insert_sorted
holds-insert_sorted c x [] = ground arith
holds-insert_sorted c x (y ∷ ys) = ground (arith, holds-insert_sorted c x ys)

holds-sort_strings : (c : Text) (xs : List Text) → holds c (sort_strings xs) ≡ holds c xs
unfolding sort_strings
holds-sort_strings c [] = refl
holds-sort_strings c (x ∷ xs) =
    ground (arith, holds-sort_strings c xs, holds-insert_sorted c x (sort_strings xs))

-- The old names of the relinked entries.
abbrev pub old_names : List (Text × Text) → List Text
old_names = map (λ e. e.0)

abbrev pub Accounted : Text → Reconciled → Type 0
Accounted c r = (holds c r.effective || holds c (old_names r.relinked) || holds c r.removed) ≡ true

holds-set_add : (c x : Text) (xs : List Text) → holds c (set_add x xs) ≡ (text_eq x c || holds c xs)
holds-set_add c x xs = ground (arith, text_eq_iff x c)

reconcile_from-Accounted :
    (current allow : List Text) (c : Text)
    → holds c allow ≡ true
    → Accounted c (reconcile_from current allow)
unfolding reconcile_from
reconcile_from-Accounted current [] c h = cc
reconcile_from-Accounted current (d ∷ allow) c h =
    let ih = reconcile_from-Accounted current allow c in
    let effective = (reconcile_from current allow).effective in
    elim (Verdict-cases (verdict current d)) [
      | inl e ↦ rw (e, reconcile_from) (ground (arith, ih, h, holds-set_add c d effective))
      | inr (inl (m, e)) ↦
          rw (e, reconcile_from) (ground (arith, ih, h, holds-set_add c m effective))
      | inr (inr e) ↦ rw (e, reconcile_from) (ground (arith, ih, h))
    ]

-- No configured name is lost: after a scan each is effective, relinked or removed.
reconcile_accounts :
    (allow names : List Text) (c : Text)
    → holds c allow ≡ true
    → Accounted c (reconcile_configured_container_names allow names)
unfolding reconcile_configured_container_names
reconcile_accounts allow names c h =
    let r = reconcile_from (current_names names) allow in
    rw (holds-sort_strings c r.removed) (reconcile_from-Accounted (current_names names) allow c h)

-- What is reported of the configured names is so in the complete scan: an effective name is in the
-- scan; a relinked one is, too, while its old name is not and differs from it in '_' and '-'
-- alone; no removed name is in the scan. And a configured name is not lost: after the scan it is
-- effective, relinked or removed.
pub reconcile_exact :
    (allow names : List Text) (c : Text)
    → holds c allow ≡ true
    → IsSoundFor (current_names names) (reconcile_configured_container_names allow names)
      × Accounted c (reconcile_configured_container_names allow names)
reconcile_exact allow names c h = (reconcile_sound allow names, reconcile_accounts allow names c h)
