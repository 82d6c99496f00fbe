-- ===== src/Health/Alerts.antt =====
-- master/internal/health/cache.go (Sample), monitor.go (evaluate) and master/internal/store/health.go
-- (the health_alerts table, a list of rows). A float64 is a type of the model with the operations that
-- the code uses; times are seconds since the epoch and not negative; a window is any whole number.
pub mod Evaluation
pub mod Series
pub mod Outage
pub mod Table
mod Tests
use bastion_hub.Prelude.{
  ℕ, suc, ℤ, pos, negsuc, is_positive, ◌+◌, ◌≡◌, Bool, true, false, ◌&&◌, ◌||◌, not, Option, none,
  some, List, [], ◌∷◌, ◌++◌, Text, codes, text_eq, filter, leb, ltb, ◌==◌, if◌then◌else◌,
}

-- What the code uses of float64: `>`, `== 0`, `float64(cores) * 2` and the constant 4.
pub record Float64 (F : Type 0) : Type 0 where
  pub gt : F → F → Bool
  pub is_zero : F → Bool
  pub twice : ℕ → F
  pub four : F
  -- Twice a count is zero only for none, and four is not zero.
  pub is_zero-twice : (n : ℕ) → is_zero (twice n) ≡ (n == 0)
  pub is_zero-four : is_zero four ≡ false

pub record Sample (F : Type 0) : Type 0 where
  pub ts : ℕ
  pub load1 : F
  pub load5 : F
  pub load15 : F
  pub cpu : F
  pub iowait : F
  pub mem_used_pct : F
  pub swap_used_pct : F
  pub net_rx : F
  pub net_tx : F
  pub disk_read : F
  pub disk_write : F
  pub proc_running : F
  pub proc_blocked : F
  pub cores : ℕ
  pub disk_used_pct : F

-- Sample.Value
pub value : {F : Type 0} → Sample F → Text → Option F
value s metric =
    if text_eq metric (codes "load1") || text_eq metric (codes "load")
    then some s.load1
    else if text_eq metric (codes "load5")
    then some s.load5
    else if text_eq metric (codes "load15")
    then some s.load15
    else if text_eq metric (codes "iowait")
    then some s.iowait
    else if text_eq metric (codes "cpu")
    then some s.cpu
    else if text_eq metric (codes "mem")
    then some s.mem_used_pct
    else if text_eq metric (codes "swap")
    then some s.swap_used_pct
    else if text_eq metric (codes "disk")
    then some s.disk_used_pct
    else none

-- A row of health_alerts; the NULLs of the two state columns read as 0.
pub record Alert (F : Type 0) : Type 0 where
  pub id : Text
  pub node_id : Text
  pub metric : Text
  pub threshold : F
  pub window_sec : ℤ
  pub enabled : Bool
  pub last_notified : ℕ
  pub breach_since : ℕ

-- if WindowSec <= 0 { WindowSec = 60 }
unfoldable pub default_window : ℤ → ℤ
default_window w = if is_positive w then w else pos 60

-- now - since >= window
unfoldable pub window_over : ℕ → ℤ → ℕ → Bool
window_over since (pos w) now = leb (since + w) now
window_over since (negsuc n) now = leb since (now + suc n)

-- The arguments of formatBreach.
pub record Breach (F : Type 0) : Type 0 where
  pub alert : Text
  pub measured : F
  pub limit : F

module _ {F : Type 0} where
  abbrev pub touched : ℕ → ℕ → Alert F → Alert F
  touched breach_since last_notified a =
      if ltb 0 last_notified
      then record a { breach_since = breach_since; last_notified = last_notified }
      else record a { breach_since = breach_since }

  -- TouchHealthAlertState
  pub touch_health_alert_state : Text → ℕ → ℕ → List (Alert F) → List (Alert F)
  touch_health_alert_state id breach_since last_notified [] = []
  touch_health_alert_state id breach_since last_notified (a ∷ table) =
      (if text_eq a.id id then touched breach_since last_notified a else a)
      ∷ touch_health_alert_state id breach_since last_notified table

  -- ListAllEnabledHealthAlerts, and the rows of one node as pollOnce groups them
  abbrev pub is_polled : Text → Alert F → Bool
  is_polled node a = a.enabled && text_eq a.node_id node

  pub alerts_by_node : Text → List (Alert F) → List (Alert F)
  alerts_by_node node table = filter (is_polled node) table

  -- PutHealthAlert on a rule that has an id: an existing row keeps its state.
  pub put_health_alert : Alert F → List (Alert F) → List (Alert F)
  unfolding default_window
  put_health_alert a [] =
      record a { window_sec = default_window a.window_sec; last_notified = 0; breach_since = 0 }
      ∷ []
  put_health_alert a (b ∷ table) =
      if text_eq b.id a.id
      then record a {
        window_sec = default_window a.window_sec;
        last_notified = b.last_notified;
        breach_since = b.breach_since;
      }
        ∷ table
      else b ∷ put_health_alert a table

  -- DeleteHealthAlert
  pub delete_health_alert : Text → List (Alert F) → List (Alert F)
  delete_health_alert id table = filter (λ a. not (text_eq a.id id)) table

  -- The rows that SeedDefaultAlerts and ResetNodeAlertsToDefault insert; `new_id n` is the n-th
  -- identifier that newID gives.
  pub default_rows : (ℕ → Text) → ℕ → Text → List (Alert F) → List (Alert F)
  unfolding default_window
  default_rows new_id n node [] = []
  default_rows new_id n node (a ∷ alerts) =
      record a {
        id = new_id n;
        node_id = node;
        enabled = true;
        window_sec = default_window a.window_sec;
        last_notified = 0;
        breach_since = 0;
      }
      ∷ default_rows new_id (suc n) node alerts

  abbrev pub of_node : Text → List (Alert F) → List (Alert F)
  of_node node table = filter (λ a. text_eq a.node_id node) table

  pub seed_default_alerts : (ℕ → Text) → Text → List (Alert F) → List (Alert F) → List (Alert F)
  unfolding default_rows
  seed_default_alerts new_id node alerts table = elim (of_node node table) [
    | [] ↦ table ++ default_rows new_id 0 node alerts
    | _ ↦ table
  ]

  pub reset_node_alerts_to_default :
      (ℕ → Text) → Text → List (Alert F) → List (Alert F) → List (Alert F)
  unfolding default_rows
  reset_node_alerts_to_default new_id node alerts table =
      filter (λ a. not (text_eq a.node_id node)) table ++ default_rows new_id 0 node alerts

module _ {F : Type 0} (fl : Float64 F) where
  open fl use {gt, is_zero, twice, four}

  -- The threshold that evaluate compares with: a load rule with threshold 0 means twice the cores.
  pub effective_threshold : Alert F → Sample F → F
  effective_threshold a sample =
      if text_eq a.metric (codes "load") && is_zero a.threshold
      then (if is_zero (twice sample.cores) then four else twice sample.cores)
      else a.threshold

  -- The switch of evaluate for one rule, on the table and the notifications sent so far. The rule's
  -- state is that of the rows read at the start of the poll.
  pub evaluate_alert :
      ℕ → Sample F → Alert F → List (Alert F) × List (Breach F) → List (Alert F) × List (Breach F)
  unfolding window_over
  evaluate_alert now sample a (table, sent) = elim (value sample a.metric) [
    | none ↦ (table, sent)
    | some v ↦
        let limit = effective_threshold a sample in
        let breaching = gt v limit in
        if breaching && a.breach_since == 0
        then (touch_health_alert_state a.id now 0 table, sent)
        else if breaching
            && (window_over a.breach_since a.window_sec now && ltb a.last_notified a.breach_since)
        then (
          touch_health_alert_state a.id a.breach_since now table,
          sent ++ record { alert = a.id; measured = v; limit = limit } ∷ [],
        )
        else if not breaching && not (a.breach_since == 0)
        then (touch_health_alert_state a.id 0 0 table, sent)
        else (table, sent)
  ]

  -- evaluate, with Telegram configured
  pub evaluate :
      ℕ
      → Sample F
      → List (Alert F)
      → List (Alert F) × List (Breach F)
      → List (Alert F) × List (Breach F)
  unfolding evaluate_alert
  evaluate now sample [] st = st
  evaluate now sample (a ∷ alerts) st = evaluate now sample alerts (evaluate_alert now sample a st)

  -- pollOnce for a node that is enabled, online and answered with a sample
  pub poll_node : ℕ → Text → Sample F → List (Alert F) → List (Alert F) × List (Breach F)
  unfolding evaluate alerts_by_node
  poll_node now node sample table = evaluate now sample (alerts_by_node node table) (table, [])
