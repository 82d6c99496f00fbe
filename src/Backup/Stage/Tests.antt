-- ===== src/Backup/Stage/Tests.antt =====
-- A staged file that is missing, with a target that has lost its second part.
use bastion_hub.Prelude.{
  ◌≡◌, refl, some, none, false, List, [], ◌∷◌, ◌++◌, Text, codes, text_eq, decimal, digits, Option,
  length, split, trim_space, if◌then◌else◌,
}
use bastion_hub.Backup.Rows.{Backup}
use bastion_hub.Backup.Shard.{
  ShardManifest, Raw, fetched, refused, part_name, manifest_name, shard_pull,
}
use bastion_hub.Backup.Shard.Parts.{joined, Stored}
use bastion_hub.Backup.Stage.{Source, pulls, remote_name, ensure_staged}
use bastion_hub.Backup.Stage.Interrupted.{interrupted_pull_passes}

abbrev archive : Backup
archive = record {
  id = codes "b";
  node_id = codes "n";
  name = [];
  paths = [];
  container = [];
  container_name = [];
  size = 4;
  target = codes "t";
  stage_path = codes "/s";
  status = codes "ok";
  error = [];
  manifest = [];
  created_at = 1;
}

abbrev get : Text → Raw
get name =
    if text_eq name (codes "n/b.tar.gz.manifest")
    then fetched (codes "m")
    else if text_eq name (codes "n/b.tar.gz.p000000")
    then fetched (codes "xy")
    else refused (codes "404")

abbrev chunks : List Text
chunks = codes "xy" ∷ []

abbrev decode : Text → Option ShardManifest
decode bytes = some (record { shards = 2; size = 4 })

abbrev sources : Text → Source
sources tid = pulls (shard_pull decode get)

two_parts :
    (get (manifest_name (remote_name archive)) ≡ fetched (codes "m"))
    × Stored get (remote_name archive) 0 chunks
    × (get (part_name (remote_name archive) 1) ≡ refused (codes "404"))
unfolding part_name manifest_name remote_name text_eq decimal digits
two_parts = (refl, (refl, tt), refl)

names : (split b',' archive.target ≡ codes "t" ∷ []) × (text_eq (trim_space (codes "t")) [] ≡ false)
unfolding split trim_space text_eq
names = (refl, refl)

interrupted_pull_passes_example :
    (ensure_staged sources archive none ≡ (
      some (joined chunks),
      some (codes "shard pull part " ++ decimal (length chunks) ++ codes ": " ++ codes "404"),
    ))
    × (ensure_staged sources archive (ensure_staged sources archive none).0
        ≡ (some (joined chunks), none))
unfolding text_eq
interrupted_pull_passes_example =
    interrupted_pull_passes decode get sources archive (codes "t") (codes "m") (codes "404") chunks
      0 4 refl refl names.0 names.1 refl two_parts.0 refl two_parts.1 two_parts.2
