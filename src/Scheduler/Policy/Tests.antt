-- ===== src/Scheduler/Policy/Tests.antt =====
-- The theorems of the update policy at concrete scans.
use bastion_hub.Prelude.{
  ◌+◌, ◌≡◌, refl, false, List, [], ◌∷◌, map, codes, filter, length, has_byte, text_eq, trim_space,
}
use bastion_hub.Scheduler.Policy.{
  ScanItem, update_, unchanged_, describe, registry_eligible_update_type,
  classify_update_candidates,
}
use bastion_hub.Scheduler.Policy.Candidates.{classify_update_candidates_exact, wanted}

abbrev web : ScanItem
web = record {
  name = codes "web";
  image = codes "reg:5000/web:1.2";
  state = codes "running";
  update_type = codes "tag";
  has_update = update_;
  suggested_image = codes "reg:5000/web:1.3";
}

-- A stopped container is not upgraded.
abbrev scanned : List ScanItem
scanned =
    web
    ∷ record web { name = codes "db"; state = codes "exited" }
    ∷ record web { has_update = unchanged_ }
    ∷ []

no_colon : has_byte b':' (codes "1.2") ≡ false
unfolding has_byte
no_colon = refl

first_only : filter wanted scanned ≡ web ∷ []
unfolding text_eq trim_space registry_eligible_update_type
first_only = refl

classify_update_candidates_exact_example :
    ((classify_update_candidates scanned).0 ≡ map describe (filter wanted scanned))
    × ((classify_update_candidates scanned).1.candidates ≡ length (filter wanted scanned))
    × ((classify_update_candidates scanned).1.candidates
          + (classify_update_candidates scanned).1.unchanged
          + (classify_update_candidates scanned).1.skipped
        ≡ length scanned)
classify_update_candidates_exact_example = classify_update_candidates_exact scanned
