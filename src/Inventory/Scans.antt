-- ===== src/Inventory/Scans.antt =====
-- Which scan results are kept when a node reports its containers.
use bastion_hub.Prelude.{
  false, true, none, some, lookup, Option, ℕ, ◌≡◌, refl, ap, sym, ◌∙◌, arith, Bool, true, ◌&&◌,
  ◌||◌, not, List, [], ◌∷◌, ◌++◌, append_assoc, append-nil, map, Text, text_eq, text_eq_refl,
  text_eq_sound, filter, filter-filter, filter_cong, any, all, none, some, Option-cases,
  text_eq_comm, filter-true, Bool-cases, inl, inr,
}
use bastion_hub.Inventory.{
  Container, ScanRow, Tables, Fingerprint, of_node, fingerprints, insert_container, stored,
  insert_all, is_changed, differs, changed_names, delete_scan, delete_scans, delete_orphans,
  commit_containers, replace_node_containers,
}

insert_all-none :
    (node : Text) (now : ℕ) (list : List Container) → insert_all node now list none ≡ none
unfolding insert_all
insert_all-none node now [] = refl
insert_all-none node now (c ∷ list) = refl

-- The rows after all INSERTs, if none fails.
insert_all-rows :
    (node : Text) (now : ℕ) (list rows rows' : List Container)
    → insert_all node now list (some rows) ≡ some rows'
    → rows' ≡ rows ++ map (stored node now) list
unfolding insert_all insert_container
insert_all-rows node now [] rows rows' h = rw (append-nil rows) cc
insert_all-rows node now (c ∷ list) rows rows' h =
    elim (Bool-cases (any (λ r. text_eq r.id (stored node now c).id) rows)) [
      | inl e ↦ let bad = sym (insert_all-none node now list) ∙ (rw e at h) in cc
      | inr e ↦
          insert_all-rows node now list (rows ++ stored node now c ∷ []) rows' (rw e at h)
          ∙ append_assoc rows (stored node now c ∷ []) (map (stored node now) list)
    ]

delete_scans-filter :
    (node : Text) (names : List Text) (scans : List ScanRow)
    → delete_scans node names scans
      ≡ filter (λ r. not (text_eq r.node_id node && any (text_eq r.name) names)) scans
unfolding delete_scans delete_scan
delete_scans-filter node [] scans =
    sym (filter_cong _ (λ (r : ScanRow). true) (λ r. ground arith) scans ∙ filter-true scans)
delete_scans-filter node (name ∷ names) scans =
    delete_scans-filter node names (delete_scan node name scans)
    ∙ filter-filter _ _ scans
    ∙ filter_cong
        (λ x.
          not (text_eq x.node_id node && text_eq x.name name)
          && not (text_eq x.node_id node && any (text_eq x.name) names))
        _ (λ r. ground arith) scans

-- A container has the image and the image's id that were stored under its name.
abbrev pub as_before : Option Fingerprint → Container → Bool
as_before none c = false
as_before (some old) c = text_eq old.image c.image && text_eq old.image_id c.image_id

differs-as_before :
    (old : Option Fingerprint) (c : Container) → differs old c ≡ not (as_before old c)
unfolding differs
differs-as_before none c = refl
differs-as_before (some old) c = ground arith

-- A scan of the node stays if the snapshot has its name, and each container of that name has the
-- fingerprint it had.
abbrev pub keeps : Text → List (Text × Fingerprint) → List Container → ScanRow → Bool
keeps node previous list r =
    not (text_eq r.node_id node)
    || (any (λ c. text_eq c.name r.name) list
        && all (λ c. not (text_eq c.name r.name) || as_before (lookup c.name previous) c) list)

any-changed_names :
    (previous : List (Text × Fingerprint)) (list : List Container) (name : Text)
    → any (text_eq name) (changed_names previous list)
      ≡ not (all (λ c. not (text_eq c.name name) || as_before (lookup c.name previous) c) list)
unfolding changed_names is_changed
any-changed_names previous [] name = refl
any-changed_names previous (c ∷ list) name = ground (
  arith,
  any-changed_names previous list name,
  text_eq_comm name c.name,
  differs-as_before (lookup c.name previous) c,
)

any-stored :
    (node name : Text) (now : ℕ) (rest list : List Container)
    → any
        (λ c. text_eq c.node_id node && text_eq c.name name)
        (filter (λ c. not (text_eq c.node_id node)) rest ++ map (stored node now) list)
      ≡ any (λ c. text_eq c.name name) list
any-stored node name now [] [] = refl
any-stored node name now [] (c ∷ list) =
    rw (text_eq_refl node) (ground (arith, any-stored node name now [] list))
any-stored node name now (c ∷ rest) list = ground (arith, any-stored node name now rest list)

kept_scans :
    (node : Text) (now : ℕ) (previous : List (Text × Fingerprint)) (rest list : List Container)
    (scans : List ScanRow)
    → delete_orphans node
        (filter (λ c. not (text_eq c.node_id node)) rest ++ map (stored node now) list)
        (delete_scans node (changed_names previous list) scans)
      ≡ filter (keeps node previous list) scans
unfolding delete_orphans
kept_scans node now previous rest list scans =
    ap
      (λ ss.
        delete_orphans node
          (filter (λ c. not (text_eq c.node_id node)) rest ++ map (stored node now) list) ss)
      (delete_scans-filter node (changed_names previous list) scans)
    ∙ filter-filter _ _ scans
    ∙ filter_cong
        (λ r.
          not (text_eq r.node_id node && any (text_eq r.name) (changed_names previous list))
          && not (
              text_eq r.node_id node
              && not (
                  any (λ c. text_eq c.node_id r.node_id && text_eq c.name r.name)
                    (filter (λ c. not (text_eq c.node_id node)) rest
                      ++ map (stored node now) list))))
        (keeps node previous list) (λ r. one r) scans
  where
    one :
        (r : ScanRow)
        → (not (text_eq r.node_id node && any (text_eq r.name) (changed_names previous list))
            && not (
                text_eq r.node_id node
                && not (
                    any
                      (λ c. text_eq c.node_id r.node_id && text_eq c.name r.name)
                      (filter (λ c. not (text_eq c.node_id node)) rest
                        ++ map (stored node now) list))))
          ≡ keeps node previous list r
    one r = elim (Bool-cases (text_eq r.node_id node)) [
      | inl h ↦
          rw
            (
              text_eq_sound r.node_id node h,
              text_eq_refl node,
              any-stored node r.name now rest list,
            )
            (ground (arith, any-changed_names previous list r.name))
      | inr h ↦ rw h refl
    ]

-- If ReplaceNodeContainers commits, a cached scan result stays exactly if it is of another node, or the
-- snapshot has a container of its name and each of these has the image and the image's id that the
-- node's last stored row of that name had; the rows of containers are those of the other nodes and one
-- for each container of the snapshot, and the display names are as before.
pub replace_node_containers_exact :
    (node : Text) (now : ℕ) (list : List Container) (db db' : Tables)
    → replace_node_containers node now list db ≡ some db'
    → (db'.container_scan
        ≡ filter (keeps node (fingerprints (of_node node db.containers) []) list) db.container_scan)
      × (db'.containers
          ≡ filter (λ c. not (text_eq c.node_id node)) db.containers ++ map (stored node now) list)
      × (db'.container_names ≡ db.container_names)
unfolding replace_node_containers commit_containers delete_orphans
replace_node_containers_exact node now list db db' h =
    elim (Option-cases (
      insert_all node now list (some (filter (λ c. not (text_eq c.node_id node)) db.containers)))) [
        | inl e ↦ let bad = rw e at h in cc
        | inr (rows, e) ↦
            let same = sym (ap (λ o. elim o [ none ↦ db | some d ↦ d ]) (rw e at h)) in
            let all_rows = insert_all-rows node now list _ rows e in
            let previous = fingerprints (of_node node db.containers) [] in
            (
              ap (λ (d : Tables). d.container_scan) same
                  ∙ ap
                      (λ rs.
                        delete_orphans node rs
                          (delete_scans node (changed_names previous list) db.container_scan))
                      all_rows
                  ∙ kept_scans node now previous db.containers list db.container_scan,
              ap (λ (d : Tables). d.containers) same ∙ all_rows,
              ap (λ (d : Tables). d.container_names) same,
            )
      ]
