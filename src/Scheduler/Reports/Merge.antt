-- ===== src/Scheduler/Reports/Merge.antt =====
-- The targets of a merged report.
use bastion_hub.Prelude.{
  ◌≡◌, refl, ◌∙◌, Bool, false, ◌&&◌, not, List, [], ◌∷◌, arith, Text, text_eq, text_eq_iff, any,
}
use bastion_hub.Scheduler.Reports.{Section, seen_id, new_targets, merge, all_targets, all_results}

module _ {D : Type 0} where
  abbrev pub has_target : Text → List (Text × D) → Bool
  has_target id ts = any (λ t. text_eq t.0 id) ts

  -- No two targets share an id.
  abbrev pub DistinctTargets : List (Text × D) → Type 0
  DistinctTargets [] = Unit
  DistinctTargets (t ∷ ts) = (has_target t.0 ts ≡ false) × DistinctTargets ts

  has-new_targets :
      (id : Text) (seen : List Text) (ts : List (Text × D))
      → has_target id (new_targets seen ts) ≡ (has_target id ts && not (seen_id id seen))
  unfolding new_targets
  has-new_targets id seen [] = refl
  has-new_targets id seen ((j, d) ∷ ts) =
      ground (arith, has-new_targets id seen ts, has-new_targets id (j ∷ seen) ts, text_eq_iff j id)

  new_targets-Distinct :
      (seen : List Text) (ts : List (Text × D)) → DistinctTargets (new_targets seen ts)
  unfolding new_targets
  new_targets-Distinct seen [] = tt
  new_targets-Distinct seen ((j, d) ∷ ts) = ground (
    arith,
    new_targets-Distinct seen ts,
    new_targets-Distinct (j ∷ seen) ts,
    has-new_targets j (j ∷ seen) ts,
    text_eq_iff j j,
  )

-- The grid of a combined report has one column for each storage target that a section names, and
-- no column twice, and its rows are the results of all sections.
pub merge_exact :
    {R D : Type 0} (sections : List (Section R D)) (id : Text)
    → DistinctTargets (merge sections).targets
      × (has_target id (merge sections).targets ≡ has_target id (all_targets sections))
      × ((merge sections).results ≡ all_results sections)
unfolding merge
merge_exact sections id = (
  new_targets-Distinct [] (all_targets sections),
  has-new_targets id [] (all_targets sections) ∙ ground arith,
  refl,
)
