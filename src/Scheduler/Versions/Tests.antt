-- ===== src/Scheduler/Versions/Tests.antt =====
-- Versions and values.
use bastion_hub.Prelude.{
  ◌≡◌, refl, Bool, true, false, List, [], ◌∷◌, Text, codes, has_prefix, trim_prefix, trim_space,
  cut,
}
use bastion_hub.Scheduler.Versions.{
  scheduler_agent_version_at_least, scan_two, scan_int, scan_dot, scan_patch, read_more, before,
}

abbrev at_least : Text → Bool
at_least v = scheduler_agent_version_at_least v 2 4 0

versions :
    (at_least (codes "v2.4.0") ≡ true)
    × (at_least (codes "2.10.1-rc1") ≡ true)
    × (at_least (codes "3.0") ≡ true)
    × (at_least (codes "2.3.9") ≡ false)
    × (at_least (codes "dev") ≡ false)
unfolding scheduler_agent_version_at_least scan_two scan_int scan_dot scan_patch read_more before
    trim_prefix trim_space cut has_prefix
versions = (refl, refl, refl, refl, refl)

abbrev nodes : List Text
nodes = codes "a" ∷ [] ∷ codes "b" ∷ codes "a" ∷ []
