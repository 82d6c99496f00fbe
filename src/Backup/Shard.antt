-- ===== src/Backup/Shard.antt =====
-- master/internal/targets/shard.go: archives that are stored in parts.
pub mod Parts
mod Tests
use bastion_hub.Prelude.{
  ℕ, zero, suc, ◌+◌, ◌-◌, Bool, true, false, ◌&&◌, not, ◌==◌, ltb, List, [], ◌∷◌, ◌++◌, repeat,
  length, Text, codes, decimal, Option, none, some, if◌then◌else◌,
}

pub record ShardManifest : Type 0 where
  pub shards : ℕ
  pub size : ℕ

-- What getRaw makes of its local file: the object, nothing with an error, or a beginning with an error.
pub data Raw : Type 0 where
  fetched : Text → Raw
  refused : Text → Raw
  broken : Text → Text → Raw

-- A local file, if it exists, and the error of a call.
abbrev pub Outcome : Type 0
Outcome = Option Text × Option Text

unfoldable pub save_raw : Raw → Option Text → Outcome
save_raw (fetched bytes) file = (some bytes, none)
save_raw (refused e) file = (file, some e)
save_raw (broken bytes e) file = (some bytes, some e)

unfoldable pub part_name : Text → ℕ → Text
part_name remote_name i =
    let n = decimal i in remote_name ++ codes ".p" ++ repeat (6 - length n) b'0' ++ n

unfoldable pub manifest_name : Text → Text
manifest_name remote_name = remote_name ++ codes ".manifest"

unfoldable pub read_manifest : Raw → Option Text
read_manifest (fetched bytes) = some bytes
read_manifest (refused e) = none
read_manifest (broken bytes e) = none

-- The end of shardPull, with what was written.
unfoldable pub check_size : ℕ → Text → Outcome
check_size size out =
    if ltb 0 size && not (length out == size)
    then (
      some out,
      some (
          codes "shard pull size mismatch: got "
          ++ decimal (length out)
          ++ codes " want "
          ++ decimal size),
    )
    else (some out, none)

module _ (decode : Text → Option ShardManifest) (get_raw : Text → Raw) where
  -- A part, by what getRaw makes of it: it is added to what was written, or it ends the pull.
  unfoldable pub pull_part : Raw → ℕ → Text → (Text → Outcome) → Outcome
  pull_part (fetched bytes) i out next = next (out ++ bytes)
  pull_part (refused e) i out next =
      (some out, some (codes "shard pull part " ++ decimal i ++ codes ": " ++ e))
  pull_part (broken bytes e) i out next =
      (some out, some (codes "shard pull part " ++ decimal i ++ codes ": " ++ e))

  -- The loop of shardPull: the parts that are left, the next one and what was written.
  unfoldable pub pull_parts : Text → ℕ → ℕ → ℕ → Text → Outcome
  unfolding pull_part check_size
  pull_parts remote_name size zero i out = check_size size out
  pull_parts remote_name size (suc left) i out =
      pull_part (get_raw (part_name remote_name i)) i out
        (λ (out' : Text). pull_parts remote_name size left (suc i) out')

  unfoldable pub shard_parts : Option ShardManifest → Text → Option Text → Outcome
  unfolding pull_parts
  shard_parts none remote_name file = (file, some (codes "shard pull manifest: "))
  shard_parts (some m) remote_name file = pull_parts remote_name m.size m.shards 0 []

  unfoldable pub shard_manifest : Option Text → Text → Option Text → Outcome
  unfolding shard_parts save_raw
  shard_manifest none remote_name file = save_raw (get_raw remote_name) file
  shard_manifest (some bytes) remote_name file = shard_parts (decode bytes) remote_name file

  -- shardPull: the local file after it, and its error
  unfoldable pub shard_pull : Text → Option Text → Outcome
  unfolding shard_manifest read_manifest
  shard_pull remote_name file =
      shard_manifest (read_manifest (get_raw (manifest_name remote_name))) remote_name file
