-- ===== src/Backup/Retention/Versions.antt =====
-- What goes of the versions of one group.
use bastion_hub.Prelude.{
  ℕ, zero, suc, ℤ, pos, negsuc, is_zero, is_positive, pos_part, ◌-◌, ◌≡◌, refl, sym, ap, ◌∙◌, Bool,
  true, false, ◌&&◌, ◌||◌, not, List, [], ◌∷◌, arith, Text, text_eq, text_eq_iff, filter,
  filter-filter, filter-true, filter_cong, any, length, drop, leb, ltb, if◌then◌else◌, Bool-cases,
  inl, inr,
}
use bastion_hub.Backup.Rows.{Backup, delete_backup, list_backups}
use bastion_hub.Backup.Retention.Order.{
  NoNewer, NewestFirst, NewestFirst-filter, list_backups-NewestFirst,
}
use bastion_hub.Backup.Retention.{
  RetentionCfg, version_key, kept_by_days, kept_by_count, bump, retain, delete_all, apply_retention,
}

abbrev pub of_group : Text → List Backup → List Backup
of_group key rows = filter (λ b. text_eq (version_key b) key) rows

-- The versions of one group that the loop drops, with the number of those that it has kept.
drop_versions : RetentionCfg → ℕ → ℕ → List Backup → List Backup
drop_versions rc now n [] = []
drop_versions rc now n (b ∷ rows) =
    let room = drop_versions rc now (suc n) rows in
    let full = drop_versions rc now n rows in
    if kept_by_days rc now b || kept_by_count rc n then room else b ∷ full

of_group-retain :
    (rc : RetentionCfg) (now : ℕ) (kept : Text → ℕ) (key : Text) (rows : List Backup)
    → of_group key (retain rc now kept rows).1 ≡ drop_versions rc now (kept key) (of_group key rows)
unfolding retain drop_versions
of_group-retain rc now kept key [] = refl
of_group-retain rc now kept key (b ∷ rows) = ground (
  arith,
  of_group-retain rc now kept key rows,
  of_group-retain rc now (bump (version_key b) kept) key rows,
  text_eq_iff (version_key b) key,
  text_eq_iff key (version_key b),
)

abbrev pub larger : ℕ → ℕ → ℕ
larger a b = if leb a b then b else a

-- The number of versions of a group that may stay: those inside the days, and keep_count at least.
abbrev pub allowance : RetentionCfg → ℕ → List Backup → ℕ
allowance rc now versions =
    larger (pos_part rc.keep_count) (length (filter (kept_by_days rc now) versions))

drop_nil : (m : ℕ) → drop {A = Backup} m [] ≡ []
drop_nil zero = refl
drop_nil (suc m) = refl

drop_none : (m : ℕ) (rows : List Backup) → m ≡ 0 → drop m rows ≡ rows
drop_none m rows h = rw h refl

drop_one : (m k : ℕ) (b : Backup) (rows : List Backup) → m ≡ suc k → drop m (b ∷ rows) ≡ drop k rows
drop_one m k b rows h = rw h refl

module _ (rc : RetentionCfg) (now : ℕ) where
  count_room : (n : ℕ) → kept_by_count rc n ≡ ltb n (pos_part rc.keep_count)
  count_room n = by_sign rc.keep_count
    where
      by_sign : (k : ℤ) → (is_positive k && ltb n (pos_part k)) ≡ ltb n (pos_part k)
      by_sign (pos zero) = ground arith
      by_sign (pos (suc k)) = refl
      by_sign (negsuc k) = ground arith

  -- Behind a version that is too old, all are.
  in_days-stale :
      (b : Backup) (rows : List Backup)
      → kept_by_days rc now b ≡ false
      → NoNewer b.created_at rows
      → length (filter (kept_by_days rc now) rows) ≡ 0
  in_days-stale b [] h k = refl
  in_days-stale b (r ∷ rows) h k =
      let stale : kept_by_days rc now r ≡ false = ground (arith, h, k.0) in
      rw stale (in_days-stale b rows h k.1)

  drop_versions-newest :
      (n : ℕ) (rows : List Backup)
      → NewestFirst rows
      → drop_versions rc now n rows
        ≡ drop
            (larger (pos_part rc.keep_count - n) (length (filter (kept_by_days rc now) rows)))
            rows
  unfolding drop_versions
  drop_versions-newest n [] h = sym (drop_nil (larger (pos_part rc.keep_count - n) 0))
  drop_versions-newest n (b ∷ rows) h =
      let k = pos_part rc.keep_count in
      let c = length (filter (kept_by_days rc now) rows) in
      let kept = drop_versions-newest (suc n) rows h.1 in
      elim (Bool-cases (kept_by_days rc now b)) [
        | inl days ↦ rw days (
            kept
            ∙ sym (drop_one (larger (k - n) (suc c)) (larger (k - suc n) c) b rows (ground arith)))
        | inr days ↦
            let stale = in_days-stale b rows days h.0 in
            elim (Bool-cases (ltb n k)) [
              | inl room ↦
                  rw (days, count_room n ∙ room)
                    (kept
                      ∙ sym (
                          drop_one (larger (k - n) c) (larger (k - suc n) c) b rows
                            (ground (arith, room, stale))))
              | inr full ↦
                  let nothing : larger (k - n) c ≡ 0 = ground (arith, full, stale) in
                  rw (days, count_room n ∙ full)
                    (ap (λ l. b ∷ l)
                        (drop_versions-newest n rows h.1
                          ∙ drop_none (larger (k - n) c) rows nothing)
                      ∙ sym (drop_none (larger (k - n) c) (b ∷ rows) nothing))
            ]
      ]

-- The rows of the table that are not among the dropped ones.
abbrev pub without : List Backup → List Backup → List Backup
without gone table = filter (λ r. not (any (λ g. text_eq r.id g.id) gone)) table

delete_all-without : (gone table : List Backup) → delete_all gone table ≡ without gone table
unfolding delete_backup
delete_all-without [] table = sym (filter-true table)
delete_all-without (g ∷ gone) table =
    delete_all-without gone (delete_backup g.id table)
    ∙ filter-filter _ _ table
    ∙ filter_cong _ _ (λ r. de_morgan (text_eq r.id g.id) (any (λ x. text_eq r.id x.id) gone)) table
  where
    de_morgan : (a b : Bool) → (not a && not b) ≡ not (a || b)
    de_morgan true b = refl
    de_morgan false b = refl

sub_zero : (n : ℕ) → n - 0 ≡ n
sub_zero n = omega arith

-- The retention goes over a node's backups, at most 500, the newest first, and takes those away that
-- it drops, by their ids. Where keep_count and keep_days are both 0, it drops none. Else it drops all
-- versions of a group but the newest: as many of these stay as keep_count says if it is positive, or as
-- are inside a positive keep_days, if these are more. The status of a backup and the node's other
-- groups play no part.
pub apply_retention_exact :
    (rc : RetentionCfg) (now : ℕ) (node : Text) (table : List Backup) (key : Text)
    → let (left, gone) = apply_retention rc now node table in
      let versions = of_group key (list_backups node table) in
      NewestFirst versions
      × (left ≡ without gone table)
      × (of_group key gone ≡ (
          if is_zero rc.keep_count && is_zero rc.keep_days
          then []
          else drop (allowance rc now versions) versions))
unfolding apply_retention
apply_retention_exact rc now node table key =
    let listed = list_backups node table in
    let sorted =
      NewestFirst-filter (λ b. text_eq (version_key b) key) listed
        (list_backups-NewestFirst node table) in
    elim (Bool-cases (is_zero rc.keep_count && is_zero rc.keep_days)) [
      | inl off ↦ rw off (sorted, sym (filter-true table), refl)
      | inr on ↦ rw on (
        sorted,
        delete_all-without (retain rc now (λ k. 0) listed).1 table,
        of_group-retain rc now (λ k. 0) key listed
            ∙ drop_versions-newest rc now 0 (of_group key listed) sorted
            ∙ ap
                (λ m.
                  drop (larger m (length (filter (kept_by_days rc now) (of_group key listed))))
                    (of_group key listed))
                (sub_zero (pos_part rc.keep_count)),
      )
    ]
