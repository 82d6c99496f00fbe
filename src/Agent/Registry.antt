-- ===== src/Agent/Registry.antt =====
-- agent/internal/agent/registry.go: image references, versions in tags, and the choice of a newer tag.
pub mod Order
pub mod Newest
mod Tests
use bastion_hub.Prelude.{
  ℕ, suc, ◌+◌, ◌-◌, ◌*◌, ◌^◌, ◌≡◌, Bool, true, false, ◌&&◌, ◌||◌, not, Option, none, some, List, [],
  ◌∷◌, ◌++◌, map, Text, codes, text_eq, trim_space, trim_prefix, has_prefix, has_suffix, to_lower,
  cut, cut_last, has_byte, any, leb, ltb, ◌==◌, if◌then◌else◌,
}

abbrev pub is_empty : Text → Bool
is_empty [] = true
is_empty (c ∷ s) = false

-- stripDigest
unfoldable pub strip_digest : Text → Text
strip_digest ref = elim (cut_last b'@' (trim_space ref)) [
  | none ↦ trim_space ref
  | some (name, digest) ↦ if is_empty name then trim_space ref else name
]

-- The reference without its tag, and the tag.
unfoldable pub split_tag : Text → Text × Text
split_tag ref = elim (cut_last b':' ref) [
  | none ↦ (ref, codes "latest")
  | some (name, tag) ↦
      if not (is_empty name) && not (has_byte b'/' tag) then (name, tag) else (ref, codes "latest")
]

abbrev pub docker_io : Text
docker_io = codes "docker.io"

-- A registry's name and a repository in it.
unfoldable pub in_registry : Text → Text → Text × Text
in_registry host repo =
    let reg =
      if text_eq host (codes "index.docker.io") || text_eq host (codes "registry-1.docker.io")
      then docker_io
      else host in
    (
      reg,
      if text_eq reg docker_io && not (has_byte b'/' repo) then codes "library/" ++ repo else repo,
    )

unfoldable pub split_repo : Text → Text × Text
unfolding in_registry
split_repo ref = elim (cut b'/' ref) [
  | none ↦ (docker_io, codes "library/" ++ ref)
  | some (host, repo) ↦
      if (has_byte b'.' host || has_byte b':' host) || text_eq host (codes "localhost")
      then in_registry host repo
      else (docker_io, ref)
]

-- parseRef: registry, repository and tag
unfoldable pub parse_ref : Text → Text × Text × Text
unfolding strip_digest split_tag split_repo
parse_ref ref =
    let (name, tag) = split_tag (strip_digest ref) in
    let (reg, repo) = split_repo name in (reg, repo, tag)

unfoldable pub registry_api_host : Text → Text
registry_api_host reg =
    if text_eq reg docker_io
      || (text_eq reg (codes "index.docker.io") || text_eq reg (codes "registry-1.docker.io"))
    then codes "registry-1.docker.io"
    else reg

unfoldable pub image_repo_tag : Text → Text → Text
unfolding parse_ref
image_repo_tag image new_tag =
    let (reg, repo, tag) = parse_ref image in
    (if not (text_eq reg docker_io)
      then reg ++ codes "/" ++ repo
      else if has_prefix repo (codes "library/")
      then trim_prefix repo (codes "library/")
      else repo)
    ++ codes ":"
    ++ new_tag

abbrev pub one_of : List Text → Text → Bool
one_of words s = any (λ w. text_eq w s) words

abbrev pub floating_tags : List Text
floating_tags =
    codes "latest"
    ∷ codes "edge"
    ∷ codes "main"
    ∷ codes "master"
    ∷ codes "dev"
    ∷ codes "develop"
    ∷ codes "nightly"
    ∷ codes "stable"
    ∷ codes "alpine"
    ∷ codes "chromium-bundled"
    ∷ []

pub record Semver : Type 0 where
  pub major : ℕ
  pub minor : ℕ
  pub patch : ℕ
  pub pre : Text
  pub raw : Text

abbrev pub is_digit : ℕ → Bool
is_digit c = leb b'0' c && leb c b'9'

-- `\d*`: the digits at the front, and the rest
unfoldable pub span_digits : Text → Text × Text
span_digits [] = ([], [])
span_digits (c ∷ s) =
    let (ds, rest) = span_digits s in if is_digit c then (c ∷ ds, rest) else ([], c ∷ s)

unfoldable pub number : ℕ → Text → ℕ
number n [] = n
number n (c ∷ s) = number (n * 10 + (c - b'0')) s

-- The number that strconv.Atoi gives for digits or none, its error ignored: the largest int in place of
-- a larger number.
unfoldable pub atoi : Text → ℕ
unfolding number
atoi ds = if ltb (number 0 ds) (2 ^ 63) then number 0 ds else 2 ^ 63 - 1

-- `(?:\.(\d+))?`
unfoldable pub dot_digits : Text → Text × Text
unfolding span_digits
dot_digits [] = ([], [])
dot_digits (c ∷ s) =
    let (ds, rest) = span_digits s in
    if (c == b'.') && not (is_empty ds) then (ds, rest) else ([], c ∷ s)

-- `[-.]?`
unfoldable pub skip_separator : Text → Text
skip_separator [] = []
skip_separator (c ∷ s) = if c == b'-' || c == b'.' then s else c ∷ s

-- semverRe behind its `v?`; its `.*` does not match a newline.
unfoldable pub match_semver : Text → Text → Option Semver
unfolding span_digits dot_digits skip_separator atoi
match_semver raw s =
    let (maj, s1) = span_digits s in
    let (min, s2) = dot_digits s1 in
    let (pat, s3) = dot_digits s2 in
    if is_empty maj || has_byte 10 s3
    then none
    else some (record {
      major = atoi maj;
      minor = atoi min;
      patch = atoi pat;
      pre = skip_separator s3;
      raw = raw;
    })

unfoldable pub parse_trimmed : Text → Option Semver
unfolding match_semver
parse_trimmed [] = none
parse_trimmed (c ∷ s) =
    let lower = to_lower (c ∷ s) in
    if one_of floating_tags lower
      || ((has_prefix lower (codes "sha-") || has_prefix lower (codes "sha256"))
          || (has_suffix lower (codes "-amd64")
              || (has_suffix lower (codes "-arm64") || has_suffix lower (codes "-arm"))))
    then none
    else match_semver (c ∷ s) (if c == b'v' || c == b'V' then s else c ∷ s)

unfoldable pub parse_semver_tag : Text → Option Semver
unfolding parse_trimmed
parse_semver_tag tag = parse_trimmed (trim_space tag)

-- `<` on strings
pub text_ltb : Text → Text → Bool
text_ltb s [] = false
text_ltb [] (b ∷ t) = true
text_ltb (a ∷ s) (b ∷ t) = ltb a b || ((a == b) && text_ltb s t)

pub less : Semver → Semver → Bool
unfolding text_ltb
less a b =
    if not (a.major == b.major)
    then ltb a.major b.major
    else if not (a.minor == b.minor)
    then ltb a.minor b.minor
    else if not (a.patch == b.patch)
    then ltb a.patch b.patch
    else if is_empty a.pre && not (is_empty b.pre)
    then false
    else if not (is_empty a.pre) && is_empty b.pre
    then true
    else text_ltb a.pre b.pre

-- What both loops do with a version.
abbrev pub better : Option Semver → Semver → Option Semver
better none sv = some sv
better (some best) sv = if less best sv then some sv else some best

-- The loop over the tags; `version` gives the versions that it does not pass over.
pub pick : (Text → Option Semver) → Option Semver → List Text → Option Semver
unfolding less
pick version best [] = best
pick version best (t ∷ tags) = elim (version t) [
  | none ↦ pick version best tags
  | some sv ↦ pick version (better best sv) tags
]

abbrev pub raw_of : Option Semver → Text
raw_of none = []
raw_of (some sv) = sv.raw

pub highest_semver_tag : List Text → Text
unfolding pick parse_semver_tag
highest_semver_tag tags = raw_of (pick parse_semver_tag none tags)
