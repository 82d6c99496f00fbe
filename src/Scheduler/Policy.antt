-- ===== src/Scheduler/Policy.antt =====
-- master/internal/scheduler/scheduler.go: which scanned containers a schedule upgrades.
pub mod Tags
pub mod Candidates
mod Tests
use bastion_hub.Prelude.{
  ℕ, suc, ◌+◌, ◌≡◌, Bool, true, false, ◌&&◌, ◌||◌, not, Option, none, some, List, [], ◌∷◌, ◌++◌,
  Text, codes, text_eq, trim_space, cut_last, has_byte, if◌then◌else◌, ◌==◌,
}

-- HasUpdate: 0, 1, and any other number for a scan that could not tell.
pub data HasUpdate : Type 0 where
  unchanged_ update_ unknown_ : HasUpdate

-- the fields of proto.ContainerScanItem that the policy reads
pub record ScanItem : Type 0 where
  pub name : Text
  pub image : Text
  pub state : Text
  pub update_type : Text
  pub has_update : HasUpdate
  pub suggested_image : Text

pub record CandDesc : Type 0 where
  pub name : Text
  pub suggested : Text
  pub from : Text
  pub to : Text

-- the counters of containerUpdateOutcome that the classification sets
pub record Counts : Type 0 where
  pub candidates : ℕ
  pub unchanged : ℕ
  pub skipped : ℕ
  pub unknown : ℕ

-- imageTagOf: the text behind the last ':', if no '/' follows that.
unfoldable pub image_tag_of : Text → Text
image_tag_of ref = elim (cut_last b':' ref) [
  | none ↦ []
  | some (repo, tag) ↦ if has_byte b'/' tag then [] else tag
]

unfoldable pub registry_eligible_update_type : Text → Bool
registry_eligible_update_type t =
    text_eq t (codes "latest") || text_eq t (codes "tag") || text_eq t (codes "unmanaged")

pub describe : ScanItem → CandDesc
describe item = record {
  name = item.name;
  suggested = trim_space item.suggested_image;
  from = image_tag_of item.image;
  to = image_tag_of (trim_space item.suggested_image);
}

-- One round of the loop of classifyUpdateCandidates.
pub classify_item : ScanItem → List CandDesc × Counts → List CandDesc × Counts
classify_item item (descs, out) =
    if not (registry_eligible_update_type item.update_type)
    then (descs, record out { skipped = out.skipped + 1 })
    else elim item.has_update [
      | unchanged_ ↦ (descs, record out { unchanged = out.unchanged + 1 })
      | update_ ↦
          if not (text_eq item.update_type (codes "latest"))
            && not (text_eq item.update_type (codes "tag"))
          then (descs, record out { skipped = out.skipped + 1 })
          else if not (text_eq item.state []) && not (text_eq item.state (codes "running"))
          then (descs, record out { skipped = out.skipped + 1 })
          else if text_eq (trim_space item.suggested_image) []
              && not (text_eq item.update_type (codes "latest"))
          then (descs, record out { skipped = out.skipped + 1 })
          else (descs ++ describe item ∷ [], record out { candidates = out.candidates + 1 })
      | unknown_ ↦ (descs, record out { unknown = out.unknown + 1; skipped = out.skipped + 1 })
    ]

pub classify_from : List ScanItem → List CandDesc × Counts → List CandDesc × Counts
unfolding classify_item
classify_from [] acc = acc
classify_from (item ∷ items) acc = classify_from items (classify_item item acc)

pub classify_update_candidates : List ScanItem → List CandDesc × Counts
unfolding classify_from
classify_update_candidates items =
    classify_from items ([], record { candidates = 0; unchanged = 0; skipped = 0; unknown = 0 })
