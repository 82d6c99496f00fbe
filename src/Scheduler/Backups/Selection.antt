-- ===== src/Scheduler/Backups/Selection.antt =====
-- Which units a backup schedule has.
use bastion_hub.Prelude.{
  ◌≡◌, refl, sym, ◌∙◌, Bool, true, false, ◌&&◌, ◌||◌, not, ◌⊎◌, inl, inr, List, [], ◌∷◌, ◌++◌, map,
  append-nil, append_assoc, arith, Text, text_eq, text_eq_iff, filter, All, All-append, Bool-cases,
  any,
}
use bastion_hub.Scheduler.Backups.{
  BackupTarget, BackupCfg, BackupUnit, reference, append_container_units, backup_units, is_empty,
}

module _ (id_by_name : Text → Text → Text) where
  abbrev pub live : BackupTarget → Bool
  live c = not (text_eq (reference id_by_name c) [])

  abbrev pub unit_for : Bool → BackupTarget → BackupUnit
  unit_for incremental c = record {
    node_id = c.node_id;
    container = reference id_by_name c;
    name = c.name;
    paths = [];
    incremental = incremental;
  }

  append_container_units-exact :
      (incremental : Bool) (entries : List BackupTarget) (units : List BackupUnit)
      → append_container_units id_by_name incremental entries units
        ≡ units ++ map (unit_for incremental) (filter live entries)
  unfolding append_container_units
  append_container_units-exact incremental [] units = sym (append-nil units)
  append_container_units-exact incremental (c ∷ entries) units =
      elim (Bool-cases (text_eq (reference id_by_name c) [])) [
        | inl e ↦ rw e (append_container_units-exact incremental entries units)
        | inr e ↦ rw e (
            append_container_units-exact incremental entries (units ++ unit_for incremental c ∷ [])
            ∙ append_assoc units (unit_for incremental c ∷ []) _)
      ]

  -- The reference of a unit is usable: it is not empty, and for a named container it is the id that
  -- the live inventory has for the name.
  abbrev pub IsCurrent : BackupUnit → Type 0
  IsCurrent u =
      (text_eq u.container [] ≡ false)
      × ((text_eq u.name [] ≡ true) ⊎ (u.container ≡ id_by_name u.node_id u.name))

  unit_for-IsCurrent :
      (incremental : Bool) (c : BackupTarget)
      → text_eq (reference id_by_name c) [] ≡ false
      → IsCurrent (unit_for incremental c)
  unfolding reference
  unit_for-IsCurrent incremental c h = ground (arith, text_eq_iff [] [])

  All-IsCurrent :
      (incremental : Bool) (entries : List BackupTarget)
      → All IsCurrent (map (unit_for incremental) (filter live entries))
  All-IsCurrent incremental [] = tt
  All-IsCurrent incremental (c ∷ entries) =
      elim (Bool-cases (text_eq (reference id_by_name c) [])) [
        | inl e ↦ rw e (All-IsCurrent incremental entries)
        | inr e ↦ rw e (unit_for-IsCurrent incremental c e, All-IsCurrent incremental entries)
      ]

  -- One of the entries is live: then there are entries, and units for them.
  some_entry : (xs : List BackupTarget) → any live xs ≡ true → is_empty xs ≡ false
  some_entry (x ∷ xs) h = refl
  some_entry [] h = ground (arith, h)

  some_unit :
      (incremental : Bool) (xs : List BackupTarget)
      → any live xs ≡ true
      → is_empty (map (unit_for incremental) (filter live xs)) ≡ false
  some_unit incremental [] h = ground (arith, h)
  some_unit incremental (x ∷ xs) h = ground (arith, h, some_unit incremental xs)

  is_empty-append :
      {A : Type 0} (xs ys : List A) → is_empty (xs ++ ys) ≡ (is_empty xs && is_empty ys)
  is_empty-append [] ys = refl
  is_empty-append (x ∷ xs) ys = refl

  -- A schedule that lists containers, for full archives or for increments, of which one at least is
  -- live, backs up exactly the live ones, the full archives before the increments, each by a current
  -- reference: an entry whose container is gone is skipped and never backed up by its old id.
  pub backup_units_exact :
      (schedule_node : Text) (cfg : BackupCfg)
      → (any live cfg.containers || any live cfg.incremental_containers) ≡ true
      → let units =
          map (unit_for false) (filter live cfg.containers)
          ++ map (unit_for true) (filter live cfg.incremental_containers) in
        (backup_units id_by_name schedule_node cfg ≡ units) × All IsCurrent units
  unfolding backup_units
  backup_units_exact schedule_node cfg l =
      let full = append_container_units-exact false cfg.containers [] in
      let both =
        append_container_units-exact true cfg.incremental_containers
          (append_container_units id_by_name false cfg.containers []) in
      let units = map (unit_for false) (filter live cfg.containers) in
      let more = map (unit_for true) (filter live cfg.incremental_containers) in
      let parts = is_empty-append units more in
      let entries : (is_empty cfg.containers && is_empty cfg.incremental_containers) ≡ false =
        ground (arith, l, some_entry cfg.containers, some_entry cfg.incremental_containers) in
      let some_live : is_empty (units ++ more) ≡ false = ground (
        arith,
        l,
        parts,
        some_unit false cfg.containers,
        some_unit true cfg.incremental_containers,
      ) in
      (
        ground (arith, full, both, entries, some_live),
        All-append IsCurrent units _ (All-IsCurrent false cfg.containers)
            (All-IsCurrent true cfg.incremental_containers),
      )
