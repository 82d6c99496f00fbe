-- ===== src/Agent/Upgrade.antt =====
-- agent/internal/agent/docker.go: upgradeAction, which moves a Compose service to another image.
pub mod Rewrites
mod Tests
use bastion_hub.Prelude.{
  ℕ, zero, suc, ◌+◌, ◌-◌, Bool, true, false, ◌&&◌, ◌||◌, not, ◌==◌, leb, List, [], ◌∷◌, ◌++◌, Text,
  codes, text_eq, contains, cut_last, lookup, insert, length, drop, trim_space, Option, none, some,
  is_none, if◌then◌else◌,
}
use bastion_hub.Agent.Registry.{Semver, parse_semver_tag}

-- The repository and the tag at the last ':', unless a '/' follows it or nothing stands before it.
unfoldable pub split_colon : Option (Text × Text) → Text → Text × Text
split_colon none ref = (ref, codes "latest")
split_colon (some (repo, tag)) ref =
    if text_eq repo [] || contains tag (codes "/") then (ref, codes "latest") else (repo, tag)

-- splitImage, where a digest stands in the tag's place
unfoldable pub split_digest : Option (Text × Text) → Text → Text × Text
unfolding split_colon
split_digest none ref = split_colon (cut_last b':' ref) ref
split_digest (some (repo, digest)) ref =
    if text_eq repo [] then split_colon (cut_last b':' ref) ref else (repo, digest)

unfoldable pub split_image : Text → Text × Text
unfolding split_digest
split_image ref = split_digest (cut_last b'@' ref) ref

-- A service of a Compose file: `image` is empty where there is none, and `rest` is all that is left as
-- it is.
pub record Service : Type 0 where
  pub image : Text
  pub pull_policy : Option Text
  pub rest : Text

-- The Compose file and its copy.
pub record Files : Type 0 where
  pub compose : Option Text
  pub bak : Option Text

unfoldable pub crosses_major : Option Semver → Option Semver → Bool
crosses_major none new = false
crosses_major (some old) none = false
crosses_major (some old) (some new) = not (old.major == new.major)

-- The image of a service may not cross a major version.
unfoldable pub refuses : Text → Text → Bool
unfolding crosses_major split_image
refuses old_image new_image =
    not (text_eq old_image [])
    && crosses_major (parse_semver_tag (split_image old_image).1)
        (parse_semver_tag (split_image new_image).1)

abbrev pub with_image : Text → Service → Service
with_image new_image svc = record svc {
  image = new_image;
  pull_policy = (if contains new_image (codes "/") then none else svc.pull_policy);
}

-- What follows the rewriting: compose's error, and that of the wait for the container.
unfoldable pub after_rewrite : Files × Option Text → Option Text → Option Text → Files × Option Text
after_rewrite (files, some e) up_err ready_err = (files, some e)
after_rewrite (files, none) (some e) ready_err = (files, some e)
after_rewrite (files, none) none ready_err = (files, ready_err)

-- yaml.Unmarshal and yaml.Marshal on the services, and whether a file can be written.
module _ (decode : Text → Option (List (Text × Service)))
    (encode : List (Text × Service) → Option Text) (bak_writable compose_writable : Bool) where
  -- The last writes, by what is marshalled.
  unfoldable pub write_compose : Option Text → Files → Files × Option Text
  write_compose none files = (files, some (codes "marshal compose: "))
  write_compose (some out) files =
      if compose_writable
      then (record files { compose = some out }, none)
      else (files, some (codes "write compose: "))

  unfoldable pub rewrite_service :
      Option Service → Text → Text → Text → List (Text × Service) → Files → Files × Option Text
  unfolding write_compose refuses
  rewrite_service none service new_image text doc files =
      (files, some (codes "service " ++ service ++ codes " not found in compose"))
  rewrite_service (some svc) service new_image text doc files =
      let saved = record files { bak = some text } in
      if refuses svc.image new_image
      then (
        files,
        some (codes "拒绝跨大版本改写镜像 " ++ svc.image ++ codes " → " ++ new_image ++ codes "（请手动确认）"),
      )
      else if not bak_writable
      then (files, some (codes "backup compose: "))
      else write_compose (encode (insert service (with_image new_image svc) doc)) saved

  unfoldable pub rewrite_doc :
      Option (List (Text × Service)) → Text → Text → Text → Files → Files × Option Text
  unfolding rewrite_service
  rewrite_doc none service new_image text files = (files, some (codes "parse compose: "))
  rewrite_doc (some doc) service new_image text files =
      rewrite_service (lookup service doc) service new_image text doc files

  unfoldable pub rewrite_text : Option Text → Text → Text → Files → Files × Option Text
  unfolding rewrite_doc
  rewrite_text none service new_image files = (files, some (codes "read compose: "))
  rewrite_text (some text) service new_image files =
      rewrite_doc (decode text) service new_image text files

  -- rewriteComposeImage
  unfoldable pub rewrite_compose_image : Text → Text → Files → Files × Option Text
  unfolding rewrite_text
  rewrite_compose_image service new_image files = rewrite_text files.compose service new_image files

  -- What follows the pull, by its error.
  unfoldable pub after_pull :
      Option Text → Text → Text → Option Text → Option Text → Files → Files × Option Text
  unfolding rewrite_compose_image after_rewrite
  after_pull (some e) service new_image up_err ready_err files = (files, some e)
  after_pull none service new_image up_err ready_err files =
      after_rewrite (rewrite_compose_image service new_image files) up_err ready_err

  -- upgradeAction for a container whose Compose service is known or not, with the errors of the pull,
  -- of compose and of the wait: the files after it, and the error.
  unfoldable pub upgrade_action :
      Text
      → Option Text
      → Bool
      → Option Text
      → Option Text
      → Option Text
      → Files
      → Files × Option Text
  unfolding after_pull
  upgrade_action new_image none has_compose pull_err up_err ready_err files =
      if text_eq new_image []
      then (files, some (codes "no new image specified"))
      else (files, some (codes "not a compose container (project dir unavailable); cannot upgrade"))
  upgrade_action new_image (some service) has_compose pull_err up_err ready_err files =
      if text_eq new_image []
      then (files, some (codes "no new image specified"))
      else if not has_compose
      then (files, some (codes "docker compose not found on host"))
      else after_pull pull_err service new_image up_err ready_err files
