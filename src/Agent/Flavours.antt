-- ===== src/Agent/Flavours.antt =====
-- agent/internal/agent/registry.go: which tags an automatic upgrade may choose, so that an image keeps its
-- major version, its flavour and its release channel.
pub mod Compatible
mod Tests
use bastion_hub.Prelude.{
  ℕ, suc, ◌+◌, ◌^◌, ◌≡◌, Bool, true, false, ◌&&◌, ◌||◌, not, Option, none, some, List, [], ◌∷◌,
  ◌++◌, Text, codes, text_eq, trim_space, has_prefix, has_suffix, to_lower, filter, any, ltb, ◌==◌,
  if◌then◌else◌,
}
use bastion_hub.Agent.Registry.{
  Semver, parse_semver_tag, pick, raw_of, one_of, floating_tags, is_digit, number, is_empty,
}

-- the alternatives of the two regular expressions
abbrev pub channels : List Text
channels =
    codes "alpha" ∷ codes "beta" ∷ codes "rc" ∷ codes "pre" ∷ codes "preview" ∷ codes "dev" ∷ []

abbrev pub starts_with_one : List Text → Text → Bool
starts_with_one words s = any (λ w. has_prefix s w) words

abbrev pub after_separator : List Text
after_separator = codes "nightly" ∷ channels

-- A match of prereleaseTagRe behind its first character, or of joinedPrereleaseTagRe; what follows the
-- word is optional in both.
unfoldable pub prerelease_inside : Text → Bool
prerelease_inside [] = false
prerelease_inside (c ∷ s) =
    ((c == b'-' || (c == b'.' || c == b'_')) && starts_with_one after_separator s)
    || ((is_digit c && starts_with_one channels s) || prerelease_inside s)

unfoldable pub is_prerelease_tag : Text → Bool
unfolding prerelease_inside
is_prerelease_tag tag =
    let lower = to_lower (trim_space tag) in
    starts_with_one after_separator lower || prerelease_inside lower

abbrev pub add_field : Text → List Text → List Text
add_field field fields = if is_empty field then fields else field ∷ fields

-- strings.FieldsFunc: the parts between separators that are not empty, behind the part read so far.
unfoldable pub fields_from : (ℕ → Bool) → Text → Text → List Text
fields_from separates field [] = add_field field []
fields_from separates field (c ∷ s) =
    let next = fields_from separates [] s in
    let longer = fields_from separates (field ++ c ∷ []) s in
    if separates c then add_field field next else longer

unfoldable pub tag_has_token : Text → Text → Bool
unfolding fields_from
tag_has_token tag token =
    any (λ field. text_eq field token)
      (fields_from (λ c. c == b'-' || (c == b'_' || (c == b'.' || c == b'+'))) [] tag)

abbrev pub image_variant_tokens : List Text
image_variant_tokens =
    codes "alpine"
    ∷ codes "slim"
    ∷ codes "bookworm"
    ∷ codes "bullseye"
    ∷ codes "buster"
    ∷ codes "trixie"
    ∷ codes "jammy"
    ∷ codes "noble"
    ∷ codes "debian"
    ∷ codes "ubuntu"
    ∷ codes "ubi"
    ∷ codes "fips"
    ∷ codes "windowsservercore"
    ∷ codes "nanoserver"
    ∷ codes "windows"
    ∷ codes "amd64"
    ∷ codes "arm64"
    ∷ codes "armv7"
    ∷ codes "arm"
    ∷ []

abbrev pub all_digits : Text → Bool
all_digits [] = true
all_digits (c ∷ s) = is_digit c && all_digits s

-- strconv.Atoi succeeds: digits, with a sign or without, that spell an int. A field of the suffix holds
-- no '-'.
unfoldable pub is_int : Text → Bool
is_int [] = false
is_int (c ∷ s) =
    if c == b'+'
    then not (is_empty s) && (all_digits s && ltb (number 0 s) (2 ^ 63))
    else all_digits (c ∷ s) && ltb (number 0 (c ∷ s)) (2 ^ 63)

-- A suffix that numbers a revision.
unfoldable pub has_revision : Text → Bool
unfolding is_int fields_from
has_revision pre = any is_int (fields_from (λ c. c == b'-' || (c == b'.' || c == b'_')) [] pre)

unfoldable pub image_tag_variants : Text → List Text
unfolding tag_has_token has_revision
image_tag_variants tag =
    let lower = to_lower (trim_space tag) in
    filter (tag_has_token lower) image_variant_tokens ++ elim (parse_semver_tag lower) [
      | none ↦ []
      | some sv ↦ if not (is_empty sv.pre) && has_revision sv.pre then codes "revision" ∷ [] else []
    ]

-- strings.Join with ','
unfoldable pub join : List Text → Text
join [] = []
join (s ∷ []) = s
join (s ∷ t ∷ rest) = s ++ b',' ∷ join (t ∷ rest)

unfoldable pub same_image_tag_variant : Text → Text → Bool
unfolding image_tag_variants join
same_image_tag_variant a b = text_eq (join (image_tag_variants a)) (join (image_tag_variants b))

-- The version of a tag, if the loop of highestCompatibleSemverTag does not pass it over.
pub compatible : Semver → Text → Text → Option Semver
compatible cur current tag = elim (parse_semver_tag tag) [
  | none ↦ none
  | some sv ↦
      if not (sv.major == cur.major)
        || (not (same_image_tag_variant current tag)
            || (not (is_prerelease_tag current) && is_prerelease_tag tag))
      then none
      else some sv
]

pub highest_compatible_semver_tag : Text → List Text → Text
unfolding compatible
highest_compatible_semver_tag current tags = elim (parse_semver_tag current) [
  | none ↦ []
  | some cur ↦ raw_of (pick (compatible cur current) none tags)
]

pub floating_or_latest : Text → Bool
floating_or_latest tag =
    let lower = to_lower (trim_space tag) in
    if one_of floating_tags lower then true else elim (parse_semver_tag lower) [
      | some sv ↦ false
      | none ↦
          text_eq lower (codes "alpine")
          || (text_eq lower (codes "slim") || has_suffix lower (codes "-alpine"))
    ]
