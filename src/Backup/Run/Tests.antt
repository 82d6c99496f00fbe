-- ===== src/Backup/Run/Tests.antt =====
-- A backup to two targets, of which one refuses the archive.
use bastion_hub.Prelude.{
  pos, is_none, ℕ, ◌≡◌, refl, true, ◌&&◌, ◌||◌, none, some, List, [], ◌∷◌, Text, codes, text_eq,
  Option, lookup, if◌then◌else◌,
}
use bastion_hub.Backup.Rows.{Backup}
use bastion_hub.Backup.Retention.{RetentionCfg}
use bastion_hub.Backup.Targets.{BackupTarget, S3Config, S3UploadConfig, direct_s3_upload_config}
use bastion_hub.Backup.Run.{AgentAnswer, answered, timed_out, State, run_backup}
use bastion_hub.Backup.Run.Outcome.{archived, sent_direct, run_backup_exact}

abbrev job : Backup
job = record {
  id = codes "b1";
  node_id = codes "a";
  name = codes "nightly";
  paths = [];
  container = [];
  container_name = [];
  size = 0;
  target = codes "t1,t2";
  stage_path = codes "/stage/1";
  status = codes "running";
  error = [];
  manifest = [];
  created_at = 1000;
}

abbrev first_target : BackupTarget
first_target = record {
  id = codes "t1";
  type = codes "sftp";
  name = codes "one";
  config = [];
  enabled = true;
  created_at = 1;
}

abbrev tgts : List BackupTarget
tgts = first_target ∷ record first_target { id = codes "t2"; name = codes "two" } ∷ []

abbrev scan : Text → Option (ℕ × ℕ)
scan v = some (2, 3)

abbrev decode : Text → Option S3Config
decode c = none

abbrev join : Text → Text → Text
join x y = y

abbrev push : Text → Option Text
push id = if text_eq id (codes "t2") then some (codes "access denied") else none

abbrev archive : AgentAnswer
archive = answered (record { ok = true; size = 7; err = []; manifest = [] })

abbrev forever : RetentionCfg
forever = record { keep_count = pos 0; keep_days = pos 0 }

abbrev before : State
before = record { table = job ∷ []; events = [] }

abbrev direct : Option (Text × S3UploadConfig)
direct = direct_s3_upload_config scan decode join (codes "2.3") tgts (codes "a/b1.tar.gz")

run_backup_exact_example :
    ((run_backup forever 2000 push tgts tgts direct archive timed_out none
        (codes "A")
        job
        before).0.tar_ok
      ≡ archived direct archive timed_out)
    × (is_none
          (run_backup forever 2000 push tgts tgts direct archive timed_out none
            (codes "A")
            job
            before).1
        ≡ archived direct archive timed_out)
    × (lookup
          (codes "t2")
          (run_backup forever 2000 push tgts tgts direct archive timed_out none
            (codes "A")
            job
            before).0.target_ok
        ≡ some (
            archived direct archive timed_out
            && (sent_direct direct archive || is_none (push (codes "t2")))))
unfolding text_eq
run_backup_exact_example =
    run_backup_exact scan decode join forever 2000 push tgts tgts (codes "2.3")
      (codes "a/b1.tar.gz") archive timed_out none (codes "A") job before (codes "t2") refl refl
      refl
