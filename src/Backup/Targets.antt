-- ===== src/Backup/Targets.antt =====
-- master/internal/backup/service.go and master/internal/store/models.go: the targets of a backup, and
-- what a backup's unit did at each.
use bastion_hub.Prelude.{
  split, ℕ, Bool, false, ◌||◌, ◌&&◌, not, ◌==◌, leb, ltb, List, [], ◌∷◌, Text, text_eq, codes, any,
  trim_space, insert, Option, none, some, if◌then◌else◌,
}

pub record BackupTarget : Type 0 where
  pub id : Text
  pub type : Text
  pub name : Text
  pub config : Text
  pub enabled : Bool
  pub created_at : ℕ

pub record UnitResult : Type 0 where
  pub node_id : Text
  pub node_name : Text
  pub tar_ok : Bool
  pub err : Text
  pub target_ok : List (Text × Bool)
  pub target_ids : List Text

-- The loop of splitTargetIDs, with the ids seen so far.
unfoldable pub new_ids : List Text → List Text → List Text
new_ids seen [] = []
new_ids seen (s ∷ ss) =
    let id = trim_space s in
    let rest = new_ids seen ss in
    let rest' = new_ids (id ∷ seen) ss in
    if text_eq id [] || any (text_eq id) seen then rest else id ∷ rest'

unfoldable pub split_target_ids : Text → List Text
unfolding split new_ids
split_target_ids s = new_ids [] (split b',' s)

-- One write of false for each target.
unfoldable pub all_false : List Text → List (Text × Bool) → List (Text × Bool)
all_false [] m = m
all_false (id ∷ ids) m = all_false ids (insert id false m)

abbrev pub ids_of : List BackupTarget → List Text
ids_of [] = []
ids_of (t ∷ ts) = t.id ∷ ids_of ts

unfoldable pub zero_target_ok : List BackupTarget → List Text → List (Text × Bool)
unfolding all_false
zero_target_ok tgts target_ids = all_false target_ids (all_false (ids_of tgts) [])

pub record S3Config : Type 0 where
  pub endpoint : Text
  pub access_key : Text
  pub secret_key : Text
  pub bucket : Text
  pub prefix : Text
  pub region : Text
  pub path_style : Bool
  pub secure : Bool
  pub insecure_skip_verify : Bool

-- proto.S3UploadConfig
pub record S3UploadConfig : Type 0 where
  pub endpoint : Text
  pub access_key : Text
  pub secret_key : Text
  pub bucket : Text
  pub object : Text
  pub region : Text
  pub path_style : Bool
  pub secure : Bool
  pub insecure_skip_verify : Bool

-- `scan` is fmt.Sscanf with "%d.%d", `decode` is json.Unmarshal and `join` is path.Join.
module _ (scan : Text → Option (ℕ × ℕ)) (decode : Text → Option S3Config)
    (join : Text → Text → Text) where
  unfoldable pub version_at_least : Text → ℕ → ℕ → Bool
  version_at_least v maj min = elim (scan v) [
    | none ↦ false
    | some (a, b) ↦ ltb maj a || ((a == maj) && leb min b)
  ]

  unfoldable pub s3_object_name : S3Config → Text → Text
  s3_object_name cfg remote_name =
      if text_eq cfg.prefix [] then remote_name else join cfg.prefix remote_name

  -- The upload to a target whose configuration is decoded.
  unfoldable pub upload_to : BackupTarget → Text → Option S3Config → Option (Text × S3UploadConfig)
  unfolding s3_object_name
  upload_to t remote_name none = none
  upload_to t remote_name (some c) =
      if text_eq c.endpoint [] || text_eq c.bucket []
      then none
      else some (
        t.id,
        record {
          endpoint = c.endpoint;
          access_key = c.access_key;
          secret_key = c.secret_key;
          bucket = c.bucket;
          object = s3_object_name c remote_name;
          region = c.region;
          path_style = c.path_style;
          secure = c.secure;
          insecure_skip_verify = c.insecure_skip_verify;
        },
      )

  -- directS3UploadConfig for the version of a node that is not nil
  unfoldable pub direct_s3_upload_config :
      Text → List BackupTarget → Text → Option (Text × S3UploadConfig)
  unfolding version_at_least upload_to
  direct_s3_upload_config version [] remote_name = none
  direct_s3_upload_config version (t ∷ u ∷ ts) remote_name = none
  direct_s3_upload_config version (t ∷ []) remote_name =
      if not (version_at_least version 2 2) || not (text_eq t.type (codes "s3"))
      then none
      else upload_to t remote_name (decode t.config)
