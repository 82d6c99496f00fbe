-- ===== src/Agent/Scan.antt =====
-- agent/internal/agent/docker.go: applyRegistryScanGroup, what a scan says of the containers of one image.
pub mod Advice
mod Tests
use bastion_hub.Prelude.{
  is_none, ℕ, ℤ, pos, negsuc, Bool, true, false, ◌&&◌, ◌||◌, not, ◌==◌, ltb, List, [], ◌∷◌, ◌++◌,
  Text, codes, text_eq, trim_space, lookup, insert, Option, none, some, if◌then◌else◌,
}
use bastion_hub.Agent.Registry.{
  parse_ref, strip_digest, image_repo_tag, Semver, parse_semver_tag, less, highest_semver_tag,
}
use bastion_hub.Agent.Flavours.{highest_compatible_semver_tag, floating_or_latest}

-- the fields of proto.ContainerScanItem that a group's decision reads or writes
pub record ScanItem : Type 0 where
  pub image : Text
  pub update_type : Text
  pub has_update : ℤ
  pub registry_digest : Text
  pub local_digest : Text
  pub suggested_image : Text
  pub note : Text

-- digestResult
pub record DigestResult : Type 0 where
  pub digest : Text
  pub err : Option Text

abbrev pub no_digest : DigestResult
no_digest = record { digest = []; err = none }

-- What the group asks the registry once, for all its items.
pub record Probe : Type 0 where
  pub ref : Text
  pub cur_tag : Text
  pub tags_err : Option Text
  pub best_tag : Text
  pub best_overall_tag : Text
  pub best : DigestResult
  pub same : DigestResult

unfoldable pub reject_empty : DigestResult → DigestResult
reject_empty r =
    if is_none r.err && text_eq (trim_space r.digest) []
    then record r { err = some (codes "registry returned an empty digest") }
    else r

unfoldable pub need_same : Text → Text → Bool
need_same cur_tag best_tag = text_eq best_tag [] || floating_or_latest cur_tag

-- The shared probes, by the lister's tags or its error.
unfoldable pub probe_tags : (Text → DigestResult) → Text → Option Text → List Text → Probe
unfolding reject_empty need_same
probe_tags registry_digest ref tags_err tags =
    let cur_tag = (parse_ref ref).2 in
    let best_tag = highest_compatible_semver_tag cur_tag tags in
    record {
      ref = ref;
      cur_tag = cur_tag;
      tags_err = tags_err;
      best_tag = best_tag;
      best_overall_tag = highest_semver_tag tags;
      best =
          (if text_eq best_tag []
            then no_digest
            else reject_empty (registry_digest (image_repo_tag ref best_tag)));
      same =
          (if need_same cur_tag best_tag
            then reject_empty (registry_digest (strip_digest ref))
            else no_digest);
    }

abbrev pub with_note : Text → ScanItem → ScanItem
with_note note it = record it { note = note }

abbrev pub says : ℤ → Text → ScanItem → ScanItem
says has note it = record it { has_update = has; note = note }

-- The comparison with the same tag's digest, with the two notes.
unfoldable pub compare_same : Text → Text → Text → Text → ScanItem → ScanItem
compare_same same loc note_same note_changed it =
    let it' = record it { registry_digest = same } in
    if text_eq same loc then says (pos 0) note_same it' else says (pos 1) note_changed it'

abbrev pub cross_note : Semver → Text → Semver → Text → Text
cross_note cur cur_tag best best_tag =
    if ltb cur.major best.major
    then codes "检测到新大版本 " ++ best_tag ++ codes "（当前 " ++ cur_tag ++ codes "），跨大版本不自动更新，请手动确认"
    else codes "当前大版本 " ++ cur_tag ++ codes " 高于远端最高 " ++ best_tag ++ codes "，不自动降级"

-- A floating tag.
unfoldable pub floating : Option Text → Probe → Text → ScanItem → ScanItem
unfolding compare_same
floating (some e) p loc it = with_note (codes "无法检测 registry: " ++ e) it
floating none p loc it =
    compare_same p.same.digest loc (codes "运行镜像与远端浮动标签内容一致") (codes "远端浮动标签内容已变化") it

-- The comparison at the end, by the error of the same tag's digest.
unfoldable pub same_tag : Option Text → Probe → Text → ScanItem → ScanItem
unfolding compare_same
same_tag (some e) p loc it = with_note (codes "无法检测 registry: " ++ e) it
same_tag none p loc it =
    if text_eq p.same.digest []
    then (if floating_or_latest p.cur_tag
        then says (pos 0) (codes "无可用版本 tag，跳过 latest 自动更新") it
        else with_note (codes "无法检测 registry: empty digest") it)
    else compare_same p.same.digest loc (codes "运行镜像与远端标签内容一致") (codes "远端标签内容已变化") it

-- Behind the choice of a best tag: another major version among all tags, or the same tag.
unfoldable pub no_compatible : Option Semver → Option Semver → Probe → Text → ScanItem → ScanItem
unfolding same_tag
no_compatible none all p loc it = same_tag p.same.err p loc it
no_compatible (some cur) none p loc it = same_tag p.same.err p loc it
no_compatible (some cur) (some all) p loc it =
    if not (cur.major == all.major)
    then says (pos 0) (cross_note cur p.cur_tag all p.best_overall_tag) it
    else same_tag p.same.err p loc it

-- The digests of the best tag and of the running image differ, and there is no other major version.
unfoldable pub settle : Option Semver → Semver → Probe → Text → ScanItem → ScanItem
settle cur best p loc it =
    let newer : Bool =
      floating_or_latest p.cur_tag || (elim cur [ none ↦ true | some c ↦ less c best ]) in
    let drifted : Bool = elim cur [
      | none ↦ false
      | some c ↦ not (less c best) && text_eq p.cur_tag p.best_tag
    ] in
    if newer
    then record (says (pos 1) (codes "可升级到版本 " ++ p.best_tag) it) {
      suggested_image = image_repo_tag p.ref p.best_tag;
    }
    else if drifted
    then says (pos 1) (codes "远端版本 " ++ p.best_tag ++ codes " 内容已变化") it
    else says (pos 0) (codes "已是最新版本 " ++ p.best_tag) it

abbrev pub zero_semver : Semver
zero_semver = record { major = 0; minor = 0; patch = 0; pre = []; raw = [] }

abbrev pub or_zero : Option Semver → Semver
or_zero none = zero_semver
or_zero (some v) = v

-- The best tag with its digest.
unfoldable pub to_best : Option Semver → Option Semver → Probe → Text → ScanItem → ScanItem
unfolding settle
to_best cur best p loc it =
    let it' = record it { registry_digest = p.best.digest } in
    let crosses : Bool = elim cur [
      | none ↦ false
      | some c ↦ elim best [ none ↦ false | some b ↦ not (c.major == b.major) ]
    ] in
    if crosses
    then says (pos 0) (cross_note (or_zero cur) p.cur_tag (or_zero best) p.best_tag) it'
    else if text_eq p.best.digest loc
    then says (pos 0) (codes "运行镜像与远端版本 " ++ p.best_tag ++ codes " 一致") it'
    else settle cur (or_zero best) p loc it'

abbrev pub parsed : Text → Option Semver
parsed tag = parse_semver_tag tag

-- A versioned tag, by whether there is a best one and by the error of its digest.
unfoldable pub versioned : Bool → Option Text → Probe → Text → ScanItem → ScanItem
unfolding to_best no_compatible
versioned true none p loc it = to_best (parsed p.cur_tag) (parsed p.best_tag) p loc it
versioned true (some e) p loc it =
    if not (need_same p.cur_tag p.best_tag) || not (is_none p.same.err)
    then with_note
        (elim p.tags_err [
          | none ↦ codes "无法检测版本标签: " ++ e
          | some f ↦ codes "无法列出 registry 标签: " ++ f
        ])
        it
    else no_compatible (parsed p.cur_tag) (parsed p.best_overall_tag) p loc it
versioned false e p loc it = no_compatible (parsed p.cur_tag) (parsed p.best_overall_tag) p loc it

unfoldable pub with_tags : Option Text → Probe → Text → ScanItem → ScanItem
unfolding versioned
with_tags (some e) p loc it = with_note (codes "无法列出 registry 标签: " ++ e) it
with_tags none p loc it = versioned (not (text_eq p.best_tag [])) p.best.err p loc it

-- The body of the loop over the items, by the digest of the running image.
unfoldable pub advise : Probe → Option Text → Text → ScanItem → ScanItem
unfolding floating with_tags
advise p (some e) loc it =
    let it' = if text_eq loc [] then it else record it { local_digest = loc } in
    with_note (codes "无法读取运行镜像 digest: " ++ e) it'
advise p none loc it =
    let it' = record it { local_digest = loc } in
    if text_eq loc []
    then record (with_note (codes "本地构建镜像(无 RepoDigest),无法与 registry 对比") it) {
      update_type = codes "local";
    }
    else if floating_or_latest p.cur_tag
    then floating p.same.err p loc it'
    else with_tags p.tags_err p loc it'

-- localByImageID: the digest of an image's id, read once
unfoldable pub read_local :
    (Text → Text → DigestResult)
    → Text
    → Text
    → Option DigestResult
    → List (Text × DigestResult)
    → DigestResult × List (Text × DigestResult)
read_local running image_id image (some r) cache = (r, cache)
read_local running image_id image none cache =
    (running image_id image, insert image_id (running image_id image) cache)

-- The loop over the items of the group, each with its image's id.
unfoldable pub advise_all :
    (Text → Text → DigestResult)
    → Probe
    → List (Text × DigestResult)
    → List (Text × ScanItem)
    → List ScanItem
unfolding read_local
advise_all running p cache [] = []
advise_all running p cache ((image_id, it) ∷ items) =
    let (local, cache') = read_local running image_id it.image (lookup image_id cache) cache in
    advise p local.err local.digest it ∷ advise_all running p cache' items

-- The tags, where the lister has no error.
abbrev pub listed : Option Text → List Text → List Text
listed none tags = tags
listed (some e) tags = []

-- applyRegistryScanGroup: `running` is runningRepoDigest, and the lister gives tags or an error.
unfoldable pub apply_registry_scan_group :
    (Text → Text → DigestResult)
    → (Text → DigestResult)
    → Option Text
    → List Text
    → Text
    → List (Text × ScanItem)
    → List ScanItem
unfolding probe_tags advise_all
apply_registry_scan_group running registry_digest tags_err tags ref items =
    advise_all running (probe_tags registry_digest ref tags_err (listed tags_err tags)) [] items
