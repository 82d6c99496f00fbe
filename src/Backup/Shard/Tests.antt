-- ===== src/Backup/Shard/Tests.antt =====
-- An archive in two parts.
use bastion_hub.Prelude.{
  ◌≡◌, refl, some, none, List, [], ◌∷◌, Text, codes, text_eq, decimal, digits, Option,
  if◌then◌else◌,
}
use bastion_hub.Backup.Shard.{
  ShardManifest, Raw, fetched, refused, part_name, manifest_name, shard_pull,
}
use bastion_hub.Backup.Shard.Parts.{joined, Stored, shard_pull-joined}

abbrev get : Text → Raw
get name =
    if text_eq name (codes "a.manifest")
    then fetched (codes "m")
    else if text_eq name (codes "a.p000000")
    then fetched (codes "xy")
    else if text_eq name (codes "a.p000001")
    then fetched (codes "z")
    else refused (codes "404")

abbrev chunks : List Text
chunks = codes "xy" ∷ codes "z" ∷ []

abbrev decode : Text → Option ShardManifest
decode bytes = some (record { shards = 2; size = 3 })

chunks-Stored : Stored get (codes "a") 0 chunks
unfolding part_name text_eq decimal digits
chunks-Stored = (refl, (refl, tt))

a_manifest : get (manifest_name (codes "a")) ≡ fetched (codes "m")
unfolding manifest_name text_eq
a_manifest = refl

shard_pull-joined_example : shard_pull decode get (codes "a") none ≡ (some (joined chunks), none)
shard_pull-joined_example =
    shard_pull-joined decode get (codes "a") (codes "m") chunks none a_manifest refl chunks-Stored
