-- ===== src/Scheduler/Reconcile/Persist.antt =====
-- What a reconciled schedule keeps of its targets.
use bastion_hub.Prelude.{
  ◌≡◌, refl, Bool, true, false, ◌&&◌, ◌||◌, not, ◌⊎◌, inl, inr, List, [], ◌∷◌, map, arith, Text,
  text_eq, text_eq_iff, text_eq_refl, trim_space, All, if_both, if_known,
}
use bastion_hub.Scheduler.Backups.{BackupTarget}
use bastion_hub.Scheduler.Reconcile.{
  holds, target_key, remove_set, relink, next_targets, persist_reconciled,
}

-- len(next) == 0
abbrev pub is_none : List BackupTarget → Bool
is_none [] = true
is_none (t ∷ ts) = false

-- The key under which a target stands in the schedule.
abbrev pub key_of : BackupTarget → Text
key_of t = target_key t.node_id t.name

-- The key under which a scan reports a target removed.
abbrev pub old_key : BackupTarget → Text
old_key t = target_key t.node_id (trim_space t.name)

abbrev pub keys_of : List BackupTarget → List Text
keys_of = map key_of

abbrev pub Distinct : List Text → Type 0
Distinct [] = Unit
Distinct (k ∷ ks) = (holds k ks ≡ false) × Distinct ks

holds-same : (k j : Text) → text_eq k j ≡ false → text_eq j k ≡ false
holds-same k j h = ground (arith, text_eq_iff k j, text_eq_iff j k)

module _ (id_by_name : Text → Text → Text) (removing : List Text)
    (relinked : List (Text × List (Text × Text))) where
  next-fresh :
      (k : Text) (seen : List Text) (ts : List BackupTarget)
      → holds k seen ≡ true
      → holds k (keys_of (next_targets id_by_name removing relinked seen ts)) ≡ false
  unfolding next_targets
  next-fresh k seen [] h = refl
  next-fresh k seen (t ∷ ts) h =
      let t' = relink id_by_name relinked t in
      ground (
        arith,
        next-fresh k seen ts h,
        next-fresh k (key_of t' ∷ seen) ts (ground (arith, h)),
        h,
        text_eq_iff (key_of t') k,
      )

  next-Distinct :
      (seen : List Text) (ts : List BackupTarget)
      → Distinct (keys_of (next_targets id_by_name removing relinked seen ts))
  unfolding next_targets
  next-Distinct seen [] = tt
  next-Distinct seen (t ∷ ts) =
      let k = key_of (relink id_by_name relinked t) in
      if_both (λ us. Distinct (keys_of us)) (holds (old_key t) removing) (next-Distinct seen ts)
        (if_both (λ us. Distinct (keys_of us)) (holds k seen) (next-Distinct seen ts)
          (
            next-fresh k (k ∷ seen) ts (ground (arith, text_eq_refl k)),
            next-Distinct (k ∷ seen) ts,
          ))

  -- A target is reported removed, or an entry has its current key.
  abbrev pub Stands : List Text → List Text → BackupTarget → Type 0
  Stands seen ks t =
      (holds (old_key t) removing
        || (holds (key_of (relink id_by_name relinked t)) seen
            || holds (key_of (relink id_by_name relinked t)) ks))
      ≡ true

  Stands-later :
      (seen ks : List Text) (k : Text) (ts : List BackupTarget)
      → All (Stands (k ∷ seen) ks) ts
      → All (Stands seen (k ∷ ks)) ts
  Stands-later seen ks k [] h = tt
  Stands-later seen ks k (t ∷ ts) h = (ground (arith, h.0), Stands-later seen ks k ts h.1)

  next-Stands :
      (seen : List Text) (ts : List BackupTarget)
      → All (Stands seen (keys_of (next_targets id_by_name removing relinked seen ts))) ts
  unfolding next_targets
  next-Stands seen [] = tt
  next-Stands seen (t ∷ ts) =
      let k = key_of (relink id_by_name relinked t) in
      let more = keys_of (next_targets id_by_name removing relinked (k ∷ seen) ts) in
      let k-stands : Stands seen (k ∷ more) t = ground (arith, text_eq_refl k) in
      let motive = λ (us : List BackupTarget). All (Stands seen (keys_of us)) (t ∷ ts) in
      if_known motive (holds (old_key t) removing) (λ e. (ground (arith, e), next-Stands seen ts))
        (λ e.
          if_known motive (holds k seen) (λ d. (ground (arith, d), next-Stands seen ts))
            (λ d. (k-stands, Stands-later seen more k ts (next-Stands (k ∷ seen) ts))))

  -- An entry is one of the targets, relinked, and no scan reports that target removed.
  abbrev pub Among : BackupTarget → List BackupTarget → Type 0
  Among u [] = ⊥
  Among u (t ∷ ts) =
      ((u ≡ relink id_by_name relinked t) × (holds (old_key t) removing ≡ false)) ⊎ Among u ts

  Among-later :
      (t : BackupTarget) (us ts : List BackupTarget)
      → All (λ u. Among u ts) us
      → All (λ u. Among u (t ∷ ts)) us
  Among-later t [] ts h = tt
  Among-later t (u ∷ us) ts h = (inr h.0, Among-later t us ts h.1)

  next-Among :
      (seen : List Text) (ts : List BackupTarget)
      → All (λ u. Among u ts) (next_targets id_by_name removing relinked seen ts)
  unfolding next_targets
  next-Among seen [] = tt
  next-Among seen (t ∷ ts) =
      let k = key_of (relink id_by_name relinked t) in
      let more = next_targets id_by_name removing relinked (k ∷ seen) ts in
      let same =
        Among-later t (next_targets id_by_name removing relinked seen ts) ts (next-Among seen ts) in
      let motive = All (λ (u : BackupTarget). Among u (t ∷ ts)) in
      if_known motive (holds (old_key t) removing) (λ e. same)
        (λ e.
          if_known motive (holds k seen) (λ d. same)
            (λ d. (inl (refl, e), Among-later t more ts (next-Among (k ∷ seen) ts))))

-- The schedule after a scan: its targets have distinct keys (node and current name); each is a
-- configured target, relinked, that the scan did not report removed; each configured target was
-- reported removed or has its current key in the schedule; and the schedule stays enabled exactly
-- when it was and a target is left.
pub persist_reconciled_exact :
    (id_by_name : Text → Text → Text) (enabled : Bool) (targets : List BackupTarget)
    (relinked : List (Text × List (Text × Text))) (removed : List (Text × List Text))
    → let (next, on) = persist_reconciled id_by_name enabled targets relinked removed in
      Distinct (keys_of next)
      × All (λ u. Among id_by_name (remove_set removed) relinked u targets) next
      × All (Stands id_by_name (remove_set removed) relinked [] (keys_of next)) targets
      × (on ≡ (enabled && not (is_none next)))
unfolding persist_reconciled
persist_reconciled_exact id_by_name enabled targets relinked removed = (
  next-Distinct id_by_name (remove_set removed) relinked [] targets,
  next-Among id_by_name (remove_set removed) relinked [] targets,
  next-Stands id_by_name (remove_set removed) relinked [] targets,
  enabled_iff (next_targets id_by_name (remove_set removed) relinked [] targets),
)
  where
    enabled_iff :
        (next : List BackupTarget)
        → elim next [ [] ↦ false | _ ↦ enabled ] ≡ (enabled && not (is_none next))
    enabled_iff [] = ground arith
    enabled_iff (t ∷ next) = ground arith
