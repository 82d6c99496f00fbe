-- ===== src/Inventory.antt =====
-- master/internal/store/containers.go: the stored containers of the nodes, their display names and the
-- cache of update scans, as three tables.
pub mod Scans
mod Tests
use bastion_hub.Prelude.{
  ℕ, ℤ, Bool, true, false, ◌&&◌, ◌||◌, not, List, [], ◌∷◌, ◌++◌, map, Text, text_eq, filter, any,
  take, length, leb, ltb, lookup, insert, Option, none, some, if◌then◌else◌,
}

-- The columns of containers; `id` is the primary key.
pub record Container : Type 0 where
  pub id : Text
  pub node_id : Text
  pub container_id : Text
  pub name : Text
  pub image : Text
  pub image_id : Text
  pub state : Text
  pub status : Text
  pub created : ℕ
  pub updated : ℕ
  pub update_type : Text

pub record ScanRow : Type 0 where
  pub node_id : Text
  pub name : Text
  pub has_update : ℤ
  pub note : Text
  pub scanned_at : ℕ

-- the fields of proto.ContainerScanItem that the cache stores
pub record ScanItem : Type 0 where
  pub name : Text
  pub has_update : ℤ
  pub note : Text

pub record NameRow : Type 0 where
  pub node_id : Text
  pub name : Text
  pub display_name : Text

pub record Tables : Type 0 where
  pub containers : List Container
  pub container_scan : List ScanRow
  pub container_names : List NameRow

abbrev pub of_node : Text → List Container → List Container
of_node node rows = filter (λ c. text_eq c.node_id node) rows

-- imageFingerprint
pub record Fingerprint : Type 0 where
  pub image : Text
  pub image_id : Text

-- previous: the fingerprints of a node's rows by their names
unfoldable pub fingerprints : List Container → List (Text × Fingerprint) → List (Text × Fingerprint)
fingerprints [] previous = previous
fingerprints (c ∷ rows) previous =
    fingerprints rows (insert c.name (record { image = c.image; image_id = c.image_id }) previous)

-- An INSERT, which a taken key makes fail.
unfoldable pub insert_container : Container → List Container → Option (List Container)
insert_container c rows = if any (λ r. text_eq r.id c.id) rows then none else some (rows ++ c ∷ [])

-- The row that is stored for a container of the snapshot.
abbrev pub stored : Text → ℕ → Container → Container
stored node now c = record c {
  id =
      node
      ++ b'/' ∷ (if ltb 12 (length c.container_id) then take 12 c.container_id else c.container_id);
  node_id = node;
  updated = now;
}

unfoldable pub insert_all :
    Text → ℕ → List Container → Option (List Container) → Option (List Container)
unfolding insert_container
insert_all node now [] rows = rows
insert_all node now (c ∷ list) none = none
insert_all node now (c ∷ list) (some rows) =
    insert_all node now list (insert_container (stored node now c) rows)

-- Whether the fingerprint of a container is another than the one before, or new.
unfoldable pub differs : Option Fingerprint → Container → Bool
differs none c = true
differs (some old) c = not (text_eq old.image c.image) || not (text_eq old.image_id c.image_id)

unfoldable pub is_changed : List (Text × Fingerprint) → Container → Bool
unfolding differs
is_changed previous c = differs (lookup c.name previous) c

unfoldable pub changed_names : List (Text × Fingerprint) → List Container → List Text
unfolding is_changed
changed_names previous list = map (λ c. c.name) (filter (is_changed previous) list)

-- DELETE FROM container_scan WHERE node_id=? AND name=?
unfoldable pub delete_scan : Text → Text → List ScanRow → List ScanRow
delete_scan node name scans =
    filter (λ r. not (text_eq r.node_id node && text_eq r.name name)) scans

unfoldable pub delete_scans : Text → List Text → List ScanRow → List ScanRow
unfolding delete_scan
delete_scans node [] scans = scans
delete_scans node (name ∷ names) scans = delete_scans node names (delete_scan node name scans)

-- The DELETE of the scans of a node without a container of their name.
unfoldable pub delete_orphans : Text → List Container → List ScanRow → List ScanRow
delete_orphans node rows scans =
    filter
      (λ r. not (
        text_eq r.node_id node
        && not (any (λ c. text_eq c.node_id r.node_id && text_eq c.name r.name) rows)))
      scans

-- The commit, with the rows of containers if no INSERT has failed.
unfoldable pub commit_containers :
    Text → List Text → Option (List Container) → Tables → Option Tables
unfolding delete_scans delete_orphans
commit_containers node changed none db = none
commit_containers node changed (some rows) db = some (record db {
  containers = rows;
  container_scan = delete_orphans node rows (delete_scans node changed db.container_scan);
})

-- ReplaceNodeContainers: the tables after the commit, or none after a rollback
unfoldable pub replace_node_containers : Text → ℕ → List Container → Tables → Option Tables
unfolding fingerprints insert_all changed_names commit_containers
replace_node_containers node now list db =
    let previous = fingerprints (of_node node db.containers) [] in
    let rest = filter (λ c. not (text_eq c.node_id node)) db.containers in
    commit_containers node (changed_names previous list) (insert_all node now list (some rest)) db

-- INSERT ... ON CONFLICT(node_id,name) DO UPDATE
unfoldable pub upsert_scan : ScanRow → List ScanRow → List ScanRow
upsert_scan s [] = s ∷ []
upsert_scan s (r ∷ scans) =
    let rest = upsert_scan s scans in
    if text_eq r.node_id s.node_id && text_eq r.name s.name then s ∷ scans else r ∷ rest

unfoldable pub invalidate_container_scan : Text → Tables → Tables
invalidate_container_scan node db = record db {
  container_scan = filter (λ r. not (text_eq r.node_id node)) db.container_scan;
}

unfoldable pub upsert_scans : Text → ℕ → List ScanItem → List ScanRow → List ScanRow
unfolding upsert_scan
upsert_scans node now [] scans = scans
upsert_scans node now (it ∷ items) scans = upsert_scans node now items (
    upsert_scan
      (record {
        node_id = node;
        name = it.name;
        has_update = it.has_update;
        note = it.note;
        scanned_at = now;
      })
      scans)

-- UpdateContainerScan
unfoldable pub update_container_scan : Text → ℕ → List ScanItem → Tables → Tables
unfolding upsert_scans invalidate_container_scan
update_container_scan node now items db =
    let cleared = invalidate_container_scan node db in
    record cleared { container_scan = upsert_scans node now items cleared.container_scan }

-- What a reference of InvalidateContainerScanContainers names: a stable name, a full id or a short one.
unfoldable pub names_scan : Text → List Container → Text → ScanRow → Bool
names_scan node rows ref r =
    text_eq r.name ref
    || any
        (λ c.
          text_eq c.node_id node
          && text_eq c.name r.name
          && (text_eq c.container_id ref || text_eq (take 12 c.container_id) ref))
        rows

-- The loop of InvalidateContainerScanContainers, with the references seen so far.
unfoldable pub invalidate_refs :
    Text → List Container → List Text → List Text → List ScanRow → List ScanRow
unfolding names_scan
invalidate_refs node rows seen [] scans = scans
invalidate_refs node rows seen (ref ∷ refs) scans =
    let skip = invalidate_refs node rows seen refs scans in
    let cleared =
      invalidate_refs node rows (ref ∷ seen) refs
        (filter (λ r. not (text_eq r.node_id node && names_scan node rows ref r)) scans) in
    if text_eq ref [] || any (text_eq ref) seen then skip else cleared

unfoldable pub invalidate_container_scan_containers : Text → List Text → Tables → Tables
unfolding invalidate_refs
invalidate_container_scan_containers node refs db = record db {
  container_scan = invalidate_refs node db.containers [] refs db.container_scan;
}

-- SetContainerName
unfoldable pub set_name : NameRow → List NameRow → List NameRow
set_name n [] = n ∷ []
set_name n (r ∷ names) =
    let rest = set_name n names in
    if text_eq r.node_id n.node_id && text_eq r.name n.name then n ∷ names else r ∷ rest

unfoldable pub set_container_name : NameRow → Tables → Tables
unfolding set_name
set_container_name n db = record db { container_names = set_name n db.container_names }

-- ContainerIDByName, by the latest update
unfoldable pub latest_named : Text → Text → List Container → Option Container
latest_named node name [] = none
latest_named node name (c ∷ rows) =
    let rest = latest_named node name rows in
    if not (text_eq c.node_id node && text_eq c.name name)
    then rest
    else elim rest [ none ↦ some c | some d ↦ if leb d.updated c.updated then some c else some d ]

unfoldable pub container_id_by_name : Text → Text → Tables → Text
unfolding latest_named
container_id_by_name node name db = elim (latest_named node name db.containers) [
  | none ↦ []
  | some c ↦ c.container_id
]

-- ContainerNameByID
unfoldable pub name_by_id : Text → Text → List Container → Text
name_by_id node id [] = []
name_by_id node id (c ∷ rows) =
    if text_eq c.node_id node && text_eq c.container_id id then c.name else name_by_id node id rows

unfoldable pub container_name_by_id : Text → Text → Tables → Text
unfolding name_by_id
container_name_by_id node id db = name_by_id node id db.containers
