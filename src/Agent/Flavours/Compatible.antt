-- ===== src/Agent/Flavours/Compatible.antt =====
-- The tag that an automatic upgrade chooses.
use bastion_hub.Prelude.{
  ◌≡◌, ◌≢◌, refl, true, ◌||◌, not, Option, none, some, inl, inr, List, arith, Text, All,
  Option-cases,
}
use bastion_hub.Agent.Registry.{Semver, parse_semver_tag, pick, raw_of}
use bastion_hub.Agent.Registry.Newest.{versions_of, IsHighest, pick-IsHighest, versions_of-All}
use bastion_hub.Agent.Flavours.{
  compatible, highest_compatible_semver_tag, same_image_tag_variant, is_prerelease_tag,
}

-- The version of a tag of the same major version and flavour, and no prerelease where the current tag
-- is none.
abbrev pub Follows : Semver → Text → Semver → Type 0
Follows cur current sv =
    (tag : Text) × (parse_semver_tag tag ≡ some sv)
    × (sv.major ≡ cur.major)
    × (same_image_tag_variant current tag ≡ true)
    × ((is_prerelease_tag current || not (is_prerelease_tag tag)) ≡ true)

none-compatible :
    (cur : Semver) (current tag : Text) (sv : Semver)
    → parse_semver_tag tag ≡ none
    → compatible cur current tag ≢ some sv
unfolding compatible
none-compatible cur current tag sv e h = cc

kept-compatible :
    (cur : Semver) (current tag : Text) (sv u : Semver)
    → parse_semver_tag tag ≡ some u
    → compatible cur current tag ≡ some sv
    → (sv ≡ u)
      × (sv.major ≡ cur.major)
      × (same_image_tag_variant current tag ≡ true)
      × ((is_prerelease_tag current || not (is_prerelease_tag tag)) ≡ true)
unfolding compatible
kept-compatible cur current tag sv u e h = ground (arith, e, h)

compatible-Follows :
    (cur : Semver) (current tag : Text) (sv : Semver)
    → compatible cur current tag ≡ some sv
    → Follows cur current sv
compatible-Follows cur current tag sv h = elim (Option-cases (parse_semver_tag tag)) [
  | inl e ↦ absurd (none-compatible cur current tag sv e h)
  | inr (u, e) ↦
      let (same, major, variant, channel) = kept-compatible cur current tag sv u e h in
      (tag, rw same e, major, variant, channel)
]

-- From a tag that is a version, an upgrade chooses the text of a version that no compatible one of the
-- listed tags is above; all compatible ones keep the major version, the flavour and, where the current
-- tag is no prerelease, stay off prereleases. It chooses nothing only where no tag is compatible.
pub highest_compatible_semver_tag_exact :
    (current : Text) (cur : Semver) (tags : List Text)
    → parse_semver_tag current ≡ some cur
    → (best : Option Semver) × (highest_compatible_semver_tag current tags ≡ raw_of best)
      × IsHighest best (versions_of (compatible cur current) tags)
      × All (Follows cur current) (versions_of (compatible cur current) tags)
unfolding highest_compatible_semver_tag
highest_compatible_semver_tag_exact current cur tags h = (
  pick (compatible cur current) none tags,
  rw (h, highest_compatible_semver_tag) refl,
  pick-IsHighest (compatible cur current) tags,
  versions_of-All (compatible cur current) (Follows cur current) tags
      (compatible-Follows cur current),
)
