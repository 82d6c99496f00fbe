-- ===== src/Backup/Stage/Interrupted.antt =====
-- A pull that is interrupted, and the next restore.
use bastion_hub.Prelude.{
  ℕ, suc, ◌+◌, ◌≡◌, refl, false, List, [], ◌∷◌, ◌++◌, length, Text, codes, text_eq, trim_space,
  split, decimal, Option, none, some,
}
use bastion_hub.Backup.Rows.{Backup}
use bastion_hub.Backup.Shard.{
  ShardManifest, Raw, fetched, refused, part_name, manifest_name, shard_pull,
}
use bastion_hub.Backup.Shard.Parts.{joined, Stored, shard_pull-refused}
use bastion_hub.Backup.Stage.{
  Source, pulls, remote_name, try_source, after_source, try_all, stage_missing, ensure_staged,
}

-- A backup has a staged path and one target, which stores it in parts, of which one after the first
-- chunks is refused. With no staged file, ensureStaged fails and leaves these chunks as the staged file;
-- called again on that, it succeeds and leaves the file as it is.
pub interrupted_pull_passes :
    (decode : Text → Option ShardManifest) (get_raw : Text → Raw) (sources : Text → Source)
    (b : Backup) (t bytes e : Text) (chunks : List Text) (more size : ℕ)
    → text_eq b.stage_path [] ≡ false
    → text_eq b.target [] ≡ false
    → split b',' b.target ≡ t ∷ []
    → text_eq (trim_space t) [] ≡ false
    → sources (trim_space t) ≡ pulls (shard_pull decode get_raw)
    → get_raw (manifest_name (remote_name b)) ≡ fetched bytes
    → decode bytes ≡ some (record { shards = length chunks + suc more; size = size })
    → Stored get_raw (remote_name b) 0 chunks
    → get_raw (part_name (remote_name b) (length chunks)) ≡ refused e
    → (ensure_staged sources b none ≡ (
      some (joined chunks),
      some (codes "shard pull part " ++ decimal (length chunks) ++ codes ": " ++ e),
    ))
      × (ensure_staged sources b (ensure_staged sources b none).0 ≡ (some (joined chunks), none))
unfolding ensure_staged stage_missing try_all try_source after_source
interrupted_pull_passes decode get_raw sources b t bytes e chunks more size staged target one named
      source manifest decoded stored gone =
    (first, second)
  where
    first : ensure_staged sources b none ≡ (
      some (joined chunks),
      some (codes "shard pull part " ++ decimal (length chunks) ++ codes ": " ++ e),
    )
    first =
        rw
          (
            staged,
            target,
            one,
            named,
            source,
            shard_pull-refused decode get_raw (remote_name b) bytes e chunks more size none manifest
                decoded stored gone,
          )
          refl

    second : ensure_staged sources b (ensure_staged sources b none).0 ≡ (some (joined chunks), none)
    second = rw first (rw staged refl)
