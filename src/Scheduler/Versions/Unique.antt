-- ===== src/Scheduler/Versions/Unique.antt =====
-- uniqueStrings keeps each non-empty value once.
use bastion_hub.Prelude.{
  ◌≡◌, refl, ◌∙◌, ◌&&◌, not, List, [], ◌∷◌, arith, Text, text_eq, text_eq_iff, if_both,
}
use bastion_hub.Scheduler.Reconcile.{holds}
use bastion_hub.Scheduler.Reconcile.Persist.{Distinct}
use bastion_hub.Scheduler.Versions.{unique_from, unique_strings}

holds-unique_from :
    (v : Text) (seen values : List Text)
    → holds v (unique_from seen values)
      ≡ (holds v values && (not (text_eq v []) && not (holds v seen)))
unfolding unique_from
holds-unique_from v seen [] = refl
holds-unique_from v seen (w ∷ values) =
    ground (
      arith,
      holds-unique_from v seen values,
      holds-unique_from v (w ∷ seen) values,
      text_eq_iff w v,
    )

unique_from-Distinct : (seen values : List Text) → Distinct (unique_from seen values)
unfolding unique_from
unique_from-Distinct seen [] = tt
unique_from-Distinct seen (w ∷ values) =
    if_both Distinct (text_eq w []) (unique_from-Distinct seen values) (
      if_both Distinct (holds w seen) (unique_from-Distinct seen values) (
        ground (arith, holds-unique_from w (w ∷ seen) values, text_eq_iff w w),
        unique_from-Distinct (w ∷ seen) values,
      ))

-- The nodes of a schedule are listed once each: the result has no value twice, and a value is in it
-- exactly when it is listed and not empty.
unique_strings_exact :
    (values : List Text) (v : Text)
    → Distinct (unique_strings values)
      × (holds v (unique_strings values) ≡ (holds v values && not (text_eq v [])))
unfolding unique_strings
unique_strings_exact values v =
    (unique_from-Distinct [] values, holds-unique_from v [] values ∙ ground arith)
