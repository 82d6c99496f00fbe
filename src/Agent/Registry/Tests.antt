-- ===== src/Agent/Registry/Tests.antt =====
-- References and versions of concrete images.
use bastion_hub.Prelude.{
  ◌≡◌, refl, true, List, [], ◌∷◌, Text, codes, text_eq, trim_space, trim_prefix, has_prefix, cut,
  cut_last, has_byte,
}
use bastion_hub.Agent.Registry.{
  Semver, less, parse_ref, strip_digest, split_tag, split_repo, in_registry, image_repo_tag,
  text_ltb,
}

references :
    (parse_ref (codes "nginx:1.25") ≡ (codes "docker.io", codes "library/nginx", codes "1.25"))
    × (parse_ref (codes "ghcr.io/a/b@sha256:00") ≡ (codes "ghcr.io", codes "a/b", codes "latest"))
    × (parse_ref (codes "localhost:5000/x") ≡ (codes "localhost:5000", codes "x", codes "latest"))
    × (image_repo_tag (codes "nginx:1.25") (codes "1.26") ≡ codes "nginx:1.26")
unfolding parse_ref strip_digest split_tag split_repo in_registry image_repo_tag trim_space
    trim_prefix cut cut_last has_byte text_eq has_prefix
references = (refl, refl, refl, refl)

abbrev version : Text → Semver
version pre = record { major = 1; minor = 2; patch = 0; pre = pre; raw = pre }

-- A release is above its prereleases.
ordered :
    (less (version (codes "alpha")) (version (codes "rc")) ≡ true)
    × (less (version (codes "rc")) (version []) ≡ true)
unfolding less text_ltb
ordered = (refl, refl)

abbrev listed : List Text
listed = codes "9.6.24" ∷ codes "18" ∷ codes "17.5" ∷ []
