-- ===== src/Backup/Retention/Order.antt =====
-- The order of the rows that the retention goes over.
use bastion_hub.Prelude.{
  ℕ, zero, suc, ◌≤◌, Bool, List, [], ◌∷◌, arith, Text, text_eq, filter, take, leb, All,
  if◌then◌else◌, Bool-cases, inl, inr,
}
use bastion_hub.Backup.Rows.{Backup, insert_newer, newest_first, list_backups}

-- No row is newer than one before it.
abbrev pub NewestFirst : List Backup → Type 0
NewestFirst [] = Unit
NewestFirst (b ∷ rows) = All (λ r. r.created_at ≤ b.created_at) rows × NewestFirst rows

module _ (t : ℕ) where
  abbrev pub NoNewer : List Backup → Type 0
  NoNewer rows = All (λ r. r.created_at ≤ t) rows

  NoNewer-insert :
      (b : Backup) (rows : List Backup)
      → b.created_at ≤ t
      → NoNewer rows
      → NoNewer (insert_newer b rows)
  unfolding insert_newer
  NoNewer-insert b [] h k = (h, tt)
  NoNewer-insert b (r ∷ rows) h k = elim (Bool-cases (leb r.created_at b.created_at)) [
    | inl e ↦ rw e (h, k)
    | inr e ↦ rw e (k.0, NoNewer-insert b rows h k.1)
  ]

  NoNewer-filter : (p : Backup → Bool) (rows : List Backup) → NoNewer rows → NoNewer (filter p rows)
  NoNewer-filter p [] h = tt
  NoNewer-filter p (r ∷ rows) h = elim (Bool-cases (p r)) [
    | inl e ↦ rw e (h.0, NoNewer-filter p rows h.1)
    | inr e ↦ rw e (NoNewer-filter p rows h.1)
  ]

  NoNewer-take : (n : ℕ) (rows : List Backup) → NoNewer rows → NoNewer (take n rows)
  NoNewer-take zero rows h = tt
  NoNewer-take (suc n) [] h = tt
  NoNewer-take (suc n) (r ∷ rows) h = (h.0, NoNewer-take n rows h.1)

NoNewer-le : (s t : ℕ) (rows : List Backup) → s ≤ t → NoNewer s rows → NoNewer t rows
NoNewer-le s t [] h k = tt
NoNewer-le s t (r ∷ rows) h k = (omega (arith, h, k.0), NoNewer-le s t rows h k.1)

NewestFirst-insert :
    (b : Backup) (rows : List Backup) → NewestFirst rows → NewestFirst (insert_newer b rows)
unfolding insert_newer
NewestFirst-insert b [] h = (tt, tt)
NewestFirst-insert b (r ∷ rows) h = elim (Bool-cases (leb r.created_at b.created_at)) [
  | inl e ↦
      let older : r.created_at ≤ b.created_at = ground (arith, e) in
      rw e ((older, NoNewer-le r.created_at b.created_at rows older h.0), h)
  | inr e ↦
      rw e
        (NoNewer-insert r.created_at b rows (ground (arith, e)) h.0, NewestFirst-insert b rows h.1)
]

newest_first-NewestFirst : (rows : List Backup) → NewestFirst (newest_first rows)
unfolding newest_first
newest_first-NewestFirst [] = tt
newest_first-NewestFirst (b ∷ rows) =
    NewestFirst-insert b (newest_first rows) (newest_first-NewestFirst rows)

NewestFirst-take : (n : ℕ) (rows : List Backup) → NewestFirst rows → NewestFirst (take n rows)
NewestFirst-take zero rows h = tt
NewestFirst-take (suc n) [] h = tt
NewestFirst-take (suc n) (r ∷ rows) h =
    (NoNewer-take r.created_at n rows h.0, NewestFirst-take n rows h.1)

pub NewestFirst-filter :
    (p : Backup → Bool) (rows : List Backup) → NewestFirst rows → NewestFirst (filter p rows)
NewestFirst-filter p [] h = tt
NewestFirst-filter p (r ∷ rows) h = elim (Bool-cases (p r)) [
  | inl e ↦ rw e (NoNewer-filter r.created_at p rows h.0, NewestFirst-filter p rows h.1)
  | inr e ↦ rw e (NewestFirst-filter p rows h.1)
]

pub list_backups-NewestFirst :
    (node : Text) (table : List Backup) → NewestFirst (list_backups node table)
unfolding list_backups
list_backups-NewestFirst node table = NewestFirst-take 500 _ (
    newest_first-NewestFirst
      (if text_eq node [] then table else filter (λ r. text_eq r.node_id node) table))
