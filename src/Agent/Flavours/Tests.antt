-- ===== src/Agent/Flavours/Tests.antt =====
-- The choice of an upgrade among concrete tags.
use bastion_hub.Prelude.{
  ◌≡◌, refl, Option, some, List, [], ◌∷◌, Text, codes, text_eq, trim_space, has_prefix, has_suffix,
  to_lower, has_byte, All,
}
use bastion_hub.Agent.Registry.{
  Semver, parse_semver_tag, raw_of, parse_trimmed, match_semver, span_digits, dot_digits,
  skip_separator, atoi, number,
}
use bastion_hub.Agent.Registry.Newest.{IsHighest, versions_of}
use bastion_hub.Agent.Flavours.{compatible, highest_compatible_semver_tag}
use bastion_hub.Agent.Flavours.Compatible.{highest_compatible_semver_tag_exact, Follows}

abbrev listed : List Text
listed = codes "1.4.0" ∷ codes "2.0.0" ∷ codes "1.5.0-rc1" ∷ codes "1.4.2" ∷ codes "latest" ∷ []

abbrev running : Semver
running = record { major = 1; minor = 3; patch = 0; pre = []; raw = codes "1.3.0" }

parse_running : parse_semver_tag (codes "1.3.0") ≡ some running
unfolding parse_semver_tag parse_trimmed match_semver span_digits dot_digits skip_separator atoi
    number trim_space text_eq has_prefix has_suffix to_lower has_byte
parse_running = refl

highest_compatible_semver_tag_exact_example :
    (best : Option Semver) × (highest_compatible_semver_tag (codes "1.3.0") listed ≡ raw_of best)
    × IsHighest best (versions_of (compatible running (codes "1.3.0")) listed)
    × All
        (Follows running (codes "1.3.0"))
        (versions_of (compatible running (codes "1.3.0")) listed)
highest_compatible_semver_tag_exact_example =
    highest_compatible_semver_tag_exact (codes "1.3.0") running listed parse_running
