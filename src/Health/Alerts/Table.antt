-- ===== src/Health/Alerts/Table.antt =====
-- The table of alert rules under the operations of the store.
use bastion_hub.Prelude.{
  ℕ, suc, is_positive, ◌≡◌, refl, Bool, true, false, not, List, [], ◌∷◌, map, arith, Text, codes,
  text_eq, filter, All, All-append,
}
use bastion_hub.Health.Alerts.{
  Float64, Sample, Alert, effective_threshold, put_health_alert, default_window,
  delete_health_alert, default_rows, of_node, seed_default_alerts, reset_node_alerts_to_default,
  poll_node,
}
use bastion_hub.Health.Alerts.Evaluation.{DistinctIds, polled_row, poll_node_exact}

module _ {F : Type 0} where
  -- Each rule asks for a breach of at least a second.
  abbrev pub HasWindows : List (Alert F) → Type 0
  HasWindows table = All (λ a. is_positive a.window_sec ≡ true) table

  All-filter :
      (p : Alert F → Bool) (table : List (Alert F)) → HasWindows table → HasWindows (filter p table)
  All-filter p [] h = tt
  All-filter p (a ∷ table) h = ground (arith, All-filter p table h.1)

  put-HasWindows :
      (a : Alert F) (table : List (Alert F))
      → HasWindows table
      → HasWindows (put_health_alert a table)
  unfolding put_health_alert default_window
  put-HasWindows a [] h = ground arith
  put-HasWindows a (b ∷ table) h = ground (arith, put-HasWindows a table h.1)

  default_rows-HasWindows :
      (new_id : ℕ → Text) (n : ℕ) (node : Text) (alerts : List (Alert F))
      → HasWindows (default_rows new_id n node alerts)
  unfolding default_rows default_window
  default_rows-HasWindows new_id n node [] = tt
  default_rows-HasWindows new_id n node (a ∷ alerts) =
      (ground arith, default_rows-HasWindows new_id (suc n) node alerts)

  seed-HasWindows :
      (new_id : ℕ → Text) (node : Text) (alerts table mine : List (Alert F))
      → of_node node table ≡ mine
      → HasWindows table
      → HasWindows (seed_default_alerts new_id node alerts table)
  unfolding seed_default_alerts
  seed-HasWindows new_id node alerts table [] e h =
      rw (e, seed_default_alerts)
        (All-append _ table _ h (default_rows-HasWindows new_id 0 node alerts))
  seed-HasWindows new_id node alerts table (a ∷ mine) e h = rw (e, seed_default_alerts) h

  reset-HasWindows :
      (new_id : ℕ → Text) (node : Text) (alerts table : List (Alert F))
      → HasWindows table
      → HasWindows (reset_node_alerts_to_default new_id node alerts table)
  unfolding reset_node_alerts_to_default
  reset-HasWindows new_id node alerts table h =
      All-append _ (filter (λ a. not (text_eq a.node_id node)) table) _ (All-filter _ table h)
        (default_rows-HasWindows new_id 0 node alerts)

  delete-HasWindows :
      (id : Text) (table : List (Alert F))
      → HasWindows table
      → HasWindows (delete_health_alert id table)
  unfolding delete_health_alert
  delete-HasWindows id table h = All-filter _ table h

  module _ (fl : Float64 F) where
    window-polled_row :
        (now : ℕ) (sample : Sample F) (node : Text) (a : Alert F)
        → (polled_row fl now sample node a).window_sec ≡ a.window_sec
    window-polled_row now sample node a = ground arith

    polled-HasWindows :
        (now : ℕ) (sample : Sample F) (node : Text) (table : List (Alert F))
        → HasWindows table
        → HasWindows (map (polled_row fl now sample node) table)
    polled-HasWindows now sample node [] h = tt
    polled-HasWindows now sample node (a ∷ table) h =
        (rw (window-polled_row now sample node a) h.0, polled-HasWindows now sample node table h.1)

    -- If each rule of the table has a window of at least a second, so has each rule after a put, delete,
    -- seeding, reset or poll: the window that is put or seeded may be zero, as two rules of the default
    -- template have it, or negative.
    pub table-HasWindows :
        (table alerts : List (Alert F)) (a : Alert F) (new_id : ℕ → Text) (id node : Text) (now : ℕ)
        (sample : Sample F)
        → DistinctIds table
        → HasWindows table
        → HasWindows (put_health_alert a table)
          × HasWindows (delete_health_alert id table)
          × HasWindows (seed_default_alerts new_id node alerts table)
          × HasWindows (reset_node_alerts_to_default new_id node alerts table)
          × HasWindows (poll_node fl now node sample table).0
    table-HasWindows table alerts a new_id id node now sample d h = (
      put-HasWindows a table h,
      delete-HasWindows id table h,
      seed-HasWindows new_id node alerts table (of_node node table) refl h,
      reset-HasWindows new_id node alerts table h,
      rw (poll_node_exact fl now node sample table d) (polled-HasWindows now sample node table h),
    )

    -- The threshold of a load rule is never zero, also when the cores of the node are not known.
    load_threshold_nonzero :
        (a : Alert F) (sample : Sample F)
        → text_eq a.metric (codes "load") ≡ true
        → fl.is_zero (effective_threshold fl a sample) ≡ false
    unfolding effective_threshold
    load_threshold_nonzero a sample e = ground (arith, fl.is_zero-four)
