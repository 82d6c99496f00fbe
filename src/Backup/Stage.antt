-- ===== src/Backup/Stage.antt =====
-- master/internal/backup/service.go: ensureStaged, which pulls an archive back before a restore.
pub mod Interrupted
mod Tests
use bastion_hub.Prelude.{
  Bool, true, false, List, [], ◌∷◌, ◌++◌, Text, codes, text_eq, trim_space, split, Option, none,
  some, if◌then◌else◌,
}
use bastion_hub.Backup.Rows.{Backup}
use bastion_hub.Backup.Shard.{Outcome}

-- A target and its uploader: GetTarget finds none, targets.New fails, or there is Pull.
pub data Source : Type 0 where
  no_target : Source
  no_uploader : Text → Source
  pulls : (Text → Option Text → Outcome) → Source

unfoldable pub remote_name : Backup → Text
remote_name b = b.node_id ++ codes "/" ++ b.id ++ codes ".tar.gz"

-- A turn of the loop: the staged file, and the error if the target does not serve the archive.
unfoldable pub try_source : Source → Text → Text → Option Text → Outcome
try_source no_target tid name file = (file, some (codes "target " ++ tid ++ codes " unavailable"))
try_source (no_uploader e) tid name file = (file, some e)
try_source (pulls pull) tid name file = pull name file

-- What follows a turn: the end, or the next turn with the turn's error.
unfoldable pub after_source : Outcome → (Option Text → Option Text → Outcome) → Outcome
after_source (file, none) next = (file, none)
after_source (file, some e) next = next (some e) file

-- The loop over the targets, with the last error.
unfoldable pub try_all : (Text → Source) → Text → List Text → Option Text → Option Text → Outcome
unfolding try_source after_source
try_all sources name [] none file = (file, some (codes "no target could serve the archive"))
try_all sources name [] (some e) file = (file, some e)
try_all sources name (t ∷ ts) last_err file =
    let tid = trim_space t in
    let next = λ (e : Option Text). λ (f : Option Text). try_all sources name ts e f in
    if text_eq tid []
    then next last_err file
    else after_source (try_source (sources tid) tid name file) next

-- ensureStaged behind its first two tests, by whether the staged file exists.
unfoldable pub stage_missing : (Text → Source) → Backup → Option Text → Outcome
unfolding try_all remote_name
stage_missing sources b (some bytes) = (some bytes, none)
stage_missing sources b none =
    if text_eq b.target []
    then (none, some (codes "staged archive missing and no target to pull from"))
    else try_all sources (remote_name b) (split b',' b.target) none none

-- ensureStaged: the staged file after it, and its error
unfoldable pub ensure_staged : (Text → Source) → Backup → Option Text → Outcome
unfolding stage_missing
ensure_staged sources b file =
    if text_eq b.stage_path []
    then (file, some (codes "backup has no staged archive"))
    else stage_missing sources b file
