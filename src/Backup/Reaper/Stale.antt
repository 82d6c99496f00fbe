-- ===== src/Backup/Reaper/Stale.antt =====
-- What becomes of the rows.
use bastion_hub.Prelude.{
  ℕ, ◌≡◌, refl, ap, sym, ◌∙◌, Bool, false, ◌&&◌, ◌||◌, List, [], ◌∷◌, map, arith, Text, codes,
  text_eq, text_eq_iff, any, filter, if◌then◌else◌,
}
use bastion_hub.Backup.Rows.{Backup}
use bastion_hub.Backup.Reaper.{is_running, is_stale, stale, fail_row, fail_rows, reap_stale_backups}

-- The row with its end, where `ids` has it and it still runs.
abbrev pub ended_row : Text → (Text → Bool) → Backup → Backup
ended_row note ids b =
    if ids b.id && is_running b then record b { status = codes "failed"; error = note } else b

abbrev pub listed : List Backup → Text → Bool
listed reaped id = any (λ r. text_eq r.id id) reaped

not_running : text_eq (codes "failed") (codes "running") ≡ false
unfolding text_eq
not_running = refl

fail_row-map :
    (note id : Text) (rows : List Backup)
    → fail_row note id rows ≡ map (ended_row note (λ i. text_eq i id)) rows
unfolding fail_row
fail_row-map note id [] = refl
fail_row-map note id (b ∷ rows) = rw (fail_row-map note id rows) refl

twice :
    (note : Text) (f g : Text → Bool) (rows : List Backup)
    → map (ended_row note g) (map (ended_row note f) rows)
      ≡ map (ended_row note (λ i. f i || g i)) rows
twice note f g [] = refl
twice note f g (b ∷ rows) = ground (arith, twice note f g rows, not_running)

same_ids :
    (note : Text) (f g : Text → Bool) (rows : List Backup)
    → ((i : Text) → f i ≡ g i)
    → map (ended_row note f) rows ≡ map (ended_row note g) rows
same_ids note f g [] h = refl
same_ids note f g (b ∷ rows) h = ground (arith, h b.id, same_ids note f g rows h)

none_ended : (note : Text) (rows : List Backup) → map (ended_row note (λ i. false)) rows ≡ rows
none_ended note [] = refl
none_ended note (b ∷ rows) = rw (none_ended note rows) refl

fail_rows-map :
    (note : Text) (reaped rows : List Backup)
    → fail_rows note reaped rows ≡ map (ended_row note (listed reaped)) rows
unfolding fail_rows
fail_rows-map note [] rows = sym (none_ended note rows)
fail_rows-map note (r ∷ reaped) rows =
    fail_rows-map note reaped (fail_row note r.id rows)
    ∙ ap (map (ended_row note (listed reaped))) (fail_row-map note r.id rows)
    ∙ twice note (λ i. text_eq i r.id) (listed reaped) rows
    ∙ same_ids note (λ i. text_eq i r.id || listed reaped i) (listed (r ∷ reaped)) rows
        (λ i. ground (arith, text_eq_iff i r.id, text_eq_iff r.id i))

-- A reap ends exactly the rows that were running and older than the bound at the query and that still
-- run at the update, whatever other jobs made of the table in between.
pub reap_stale_backups_exact :
    (note : Text) (now max_age : ℕ) (meanwhile : List Backup → List Backup) (rows : List Backup)
    → (reap_stale_backups note now max_age meanwhile rows).1
      ≡ map (ended_row note (listed (filter (is_stale now max_age) rows))) (meanwhile rows)
unfolding reap_stale_backups stale
reap_stale_backups_exact note now max_age meanwhile rows =
    fail_rows-map note (filter (is_stale now max_age) rows) (meanwhile rows)
