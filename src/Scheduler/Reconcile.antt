-- ===== src/Scheduler/Reconcile.antt =====
-- master/internal/scheduler/scheduler.go: reconcileConfiguredContainerNames and
-- persistReconciledContainerTargets, which bring a selective update schedule in line with a complete scan.
pub mod Names
pub mod Persist
mod Tests
use bastion_hub.Prelude.{
  ℕ, suc, ◌+◌, ◌≡◌, Bool, true, false, ◌&&◌, ◌||◌, not, Option, none, some, List, [], ◌∷◌, ◌++◌,
  map, Text, text_eq, trim_space, replace_byte, filter, ltb, lookup, if◌then◌else◌, ◌==◌,
}
use bastion_hub.Scheduler.Backups.{BackupTarget}

-- sort.Strings, by bytes
pub text_leb : Text → Text → Bool
text_leb [] t = true
text_leb (a ∷ s) [] = false
text_leb (a ∷ s) (b ∷ t) = ltb a b || (a == b) && text_leb s t

pub insert_sorted : Text → List Text → List Text
unfolding text_leb
insert_sorted x [] = x ∷ []
insert_sorted x (y ∷ ys) = if text_leb x y then x ∷ y ∷ ys else y ∷ insert_sorted x ys

pub sort_strings : List Text → List Text
unfolding insert_sorted
sort_strings [] = []
sort_strings (x ∷ xs) = insert_sorted x (sort_strings xs)

pub normalize_compose_container_name : Text → Text
normalize_compose_container_name name = replace_byte b'_' b'-' (trim_space name)

abbrev pub holds : Text → List Text → Bool
holds x [] = false
holds x (y ∷ ys) = text_eq y x || holds x ys

-- The trimmed names of a scan, without empty ones: the keys of `current`.
pub current_names : List Text → List Text
current_names names = filter (λ n. not (text_eq n [])) (map trim_space names)

-- byNormalized[key]
pub by_normalized : List Text → Text → List Text
by_normalized current key = filter (λ n. text_eq (normalize_compose_container_name n) key) current

-- What becomes of a configured name.
pub data Verdict : Type 0 where
  kept : Verdict
  relinked_to : Text → Verdict
  gone : Verdict

abbrev pub sole_match : Text → List Text → Verdict
sole_match configured [] = gone
sole_match configured (m ∷ []) = if text_eq m configured then gone else relinked_to m
sole_match configured (m ∷ n ∷ ms) = gone

pub verdict : List Text → Text → Verdict
unfolding by_normalized
verdict current configured =
    if holds configured current
    then kept
    else sole_match configured (by_normalized current (normalize_compose_container_name configured))

-- effective[name] = struct{}{}, the set as the list of its names
abbrev pub set_add : Text → List Text → List Text
set_add name names = if holds name names then names else name ∷ names

-- effective, relinked and removed
pub record Reconciled : Type 0 where
  pub effective : List Text
  pub relinked : List (Text × Text)
  pub removed : List Text

-- The loop over the configured names, before the final sort.
pub reconcile_from : List Text → List Text → Reconciled
unfolding verdict
reconcile_from current [] = record { effective = []; relinked = []; removed = [] }
reconcile_from current (c ∷ allow) =
    let r = reconcile_from current allow in
    elim (verdict current c) [
      | kept ↦ record r { effective = set_add c r.effective }
      | relinked_to m ↦ record r {
        effective = set_add m r.effective;
        relinked = (c, m) ∷ r.relinked;
      }
      | gone ↦ record r { removed = c ∷ r.removed }
    ]

-- reconcileConfiguredContainerNames on the scanned names
pub reconcile_configured_container_names : List Text → List Text → Reconciled
unfolding reconcile_from current_names sort_strings
reconcile_configured_container_names allow names =
    let r = reconcile_from (current_names names) allow in
    record r { removed = sort_strings r.removed }

-- nodeID + "\x00" + name
abbrev pub target_key : Text → Text → Text
target_key node name = node ++ 0 ∷ name

-- relinked[nodeID][oldName], empty where there is none
pub relinked_name : List (Text × List (Text × Text)) → Text → Text → Text
relinked_name relinked node old = elim (lookup node relinked) [
  | none ↦ []
  | some names ↦ elim (lookup old names) [ none ↦ [] | some new ↦ new ]
]

abbrev pub remove_set : List (Text × List Text) → List Text
remove_set [] = []
remove_set ((node, names) ∷ removed) = map (target_key node) names ++ remove_set removed

module _ (id_by_name : Text → Text → Text) where
  -- A target under its current name and id.
  pub relink : List (Text × List (Text × Text)) → BackupTarget → BackupTarget
  unfolding relinked_name
  relink relinked t =
      let new = relinked_name relinked t.node_id (trim_space t.name) in
      if text_eq new []
      then t
      else if text_eq (id_by_name t.node_id new) []
      then record t { name = new }
      else record t { name = new; container = id_by_name t.node_id new }

  -- The loop of persistReconciledContainerTargets; `seen` holds the keys so far.
  pub next_targets :
      List Text
      → List (Text × List (Text × Text))
      → List Text
      → List BackupTarget
      → List BackupTarget
  unfolding relink
  next_targets removing relinked seen [] = []
  next_targets removing relinked seen (t ∷ ts) =
      let t' = relink relinked t in
      let same = next_targets removing relinked seen ts in
      let more = t' ∷ next_targets removing relinked (target_key t'.node_id t'.name ∷ seen) ts in
      if holds (target_key t.node_id (trim_space t.name)) removing
      then same
      else if holds (target_key t'.node_id t'.name) seen
      then same
      else more

  -- The schedule's targets and whether it stays enabled.
  pub persist_reconciled :
      Bool
      → List BackupTarget
      → List (Text × List (Text × Text))
      → List (Text × List Text)
      → List BackupTarget × Bool
  unfolding next_targets
  persist_reconciled enabled targets relinked removed =
      let next = next_targets (remove_set removed) relinked [] targets in
      (next, elim next [ [] ↦ false | _ ↦ enabled ])
