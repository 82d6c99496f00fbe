-- ===== src/Agent/Scan/Tests.antt =====
-- Two containers of one image: one behind the best tag, one on its content.
use bastion_hub.Prelude.{
  refl, negsuc, none, if◌then◌else◌, List, [], ◌∷◌, Text, codes, text_eq, All,
}
use bastion_hub.Agent.Scan.{ScanItem, DigestResult, probe_tags, listed, apply_registry_scan_group}
use bastion_hub.Agent.Scan.Advice.{Sound, apply_registry_scan_group-Sound}

abbrev item : ScanItem
item = record {
  image = codes "web:1.2.0";
  update_type = codes "tag";
  has_update = negsuc 0;
  registry_digest = [];
  local_digest = [];
  suggested_image = [];
  note = [];
}

abbrev both : List (Text × ScanItem)
both = (codes "i1", item) ∷ (codes "i2", item) ∷ []

abbrev running : Text → Text → DigestResult
running image_id image =
    if text_eq image_id (codes "i1")
    then record { digest = codes "d1"; err = none }
    else record { digest = codes "d2"; err = none }

abbrev registry : Text → DigestResult
registry ref = record { digest = codes "d2"; err = none }

abbrev tags : List Text
tags = codes "1.2.0" ∷ codes "1.3.0" ∷ codes "2.0.0" ∷ []

apply_registry_scan_group-Sound_example :
    All
      (Sound (probe_tags registry (codes "web:1.2.0") none (listed none tags)))
      (apply_registry_scan_group running registry none tags (codes "web:1.2.0") both)
unfolding text_eq
apply_registry_scan_group-Sound_example =
    apply_registry_scan_group-Sound running registry none tags (codes "web:1.2.0") both
      ((refl, refl), ((refl, refl), tt))
