-- ===== src/Health/Alerts/Tests.antt =====
-- The theorems of the alert rules at a concrete table, with whole numbers for float64.
use bastion_hub.Prelude.{
  ℕ, pos, negsuc, ◌*◌, ◌≡◌, refl, true, false, some, List, [], ◌∷◌, map, arith, codes, text_eq, ltb,
  ◌==◌, if◌then◌else◌,
}
use bastion_hub.Health.Alerts.{
  Float64, Sample, Alert, is_polled, value, poll_node, effective_threshold,
  touch_health_alert_state, put_health_alert, delete_health_alert, seed_default_alerts,
  reset_node_alerts_to_default,
}
use bastion_hub.Health.Alerts.Evaluation.{poll_node_exact, polled_row, sent_for, DistinctIds}
use bastion_hub.Health.Alerts.Outage.{outage_notified_once, breaches, window_passed}
use bastion_hub.Health.Alerts.Series.{announced}
use bastion_hub.Health.Alerts.Table.{table-HasWindows, HasWindows}

whole_twice : (n : ℕ) → (n * 2 == 0) ≡ (n == 0)
whole_twice n = ground arith

abbrev whole : Float64 ℕ
whole = record {
  gt = λ a b. ltb b a;
  is_zero = λ n. n == 0;
  twice = λ n. n * 2;
  four = 4;
  is_zero-twice = whole_twice;
  is_zero-four = refl;
}

abbrev sample_of : ℕ → ℕ → ℕ → Sample ℕ
sample_of cpu load cores = record {
  ts = 0;
  load1 = load;
  load5 = load;
  load15 = load;
  cpu = cpu;
  iowait = 0;
  mem_used_pct = 0;
  swap_used_pct = 0;
  net_rx = 0;
  net_tx = 0;
  disk_read = 0;
  disk_write = 0;
  proc_running = 0;
  proc_blocked = 0;
  cores = cores;
  disk_used_pct = 0;
}

abbrev cpu_rule : Alert ℕ
cpu_rule = record {
  id = codes "1";
  node_id = codes "a";
  metric = codes "cpu";
  threshold = 90;
  window_sec = pos 60;
  enabled = true;
  last_notified = 0;
  breach_since = 100;
}

abbrev load_rule : Alert ℕ
load_rule = record cpu_rule {
  id = codes "2";
  metric = codes "load";
  threshold = 0;
  breach_since = 0;
}

abbrev rules : List (Alert ℕ)
rules = cpu_rule ∷ load_rule ∷ []

rules-DistinctIds : DistinctIds rules
unfolding text_eq
rules-DistinctIds = ((refl, tt), (tt, tt))

-- The first rule is announced, the second one starts its outage.
poll_rules : poll_node whole 200 (codes "a") (sample_of 95 9 4) rules ≡ (
  record cpu_rule { last_notified = 200 } ∷ record load_rule { breach_since = 200 } ∷ [],
  record { alert = codes "1"; measured = 95; limit = 90 } ∷ [],
)
unfolding poll_node text_eq value effective_threshold touch_health_alert_state
poll_rules = refl

poll_node_exact_example : poll_node whole 200 (codes "a") (sample_of 95 9 4) rules ≡ (
  map (polled_row whole 200 (sample_of 95 9 4) (codes "a")) rules,
  sent_for whole 200 (sample_of 95 9 4) (codes "a") rules,
)
poll_node_exact_example =
    poll_node_exact whole 200 (codes "a") (sample_of 95 9 4) rules rules-DistinctIds

polled : is_polled (codes "a") cpu_rule ≡ true
unfolding text_eq
polled = refl

abbrev polls : List (ℕ × Sample ℕ)
polls = (330, sample_of 95 0 4) ∷ (360, sample_of 95 0 4) ∷ (390, sample_of 99 0 4) ∷ []

cpu_value : (cpu : ℕ) → value (sample_of cpu 0 4) (codes "cpu") ≡ some cpu
unfolding value text_eq
cpu_value cpu = refl

cpu_quiet : breaches whole cpu_rule (sample_of 10 0 4) ≡ false
unfolding value text_eq effective_threshold
cpu_quiet = refl

cpu_breached :
    (breaches whole cpu_rule (sample_of 95 0 4) ≡ true)
    × (breaches whole cpu_rule (sample_of 99 0 4) ≡ true)
unfolding value text_eq effective_threshold
cpu_breached = (refl, refl)

outage_notified_once_example :
    announced whole
      (codes "a")
      (codes "1")
      rules
      ((270, sample_of 10 0 4) ∷ (300, sample_of 95 0 4) ∷ polls)
    ≡ (if window_passed whole 300 (pos 60) polls then 1 else 0)
outage_notified_once_example =
    outage_notified_once whole (codes "a") [] (load_rule ∷ []) cpu_rule 270 300 (sample_of 10 0 4)
      (sample_of 95 0 4) 10 polls rules-DistinctIds polled refl (cpu_value 10) cpu_quiet
      (omega arith) cpu_breached.0 (cpu_breached.0, (cpu_breached.0, (cpu_breached.1, tt)))

rules-HasWindows : HasWindows rules
rules-HasWindows = (refl, (refl, tt))

table-HasWindows_example :
    HasWindows (put_health_alert (record load_rule { window_sec = negsuc 4 }) rules)
    × HasWindows (delete_health_alert (codes "1") rules)
    × HasWindows (seed_default_alerts (λ n. n ∷ []) (codes "b") rules rules)
    × HasWindows (reset_node_alerts_to_default (λ n. n ∷ []) (codes "b") rules rules)
    × HasWindows (poll_node whole 200 (codes "b") (sample_of 95 9 4) rules).0
table-HasWindows_example =
    table-HasWindows whole rules rules (record load_rule { window_sec = negsuc 4 }) (λ n. n ∷ [])
      (codes "1") (codes "b") 200 (sample_of 95 9 4) rules-DistinctIds rules-HasWindows

load_metric : text_eq load_rule.metric (codes "load") ≡ true
unfolding text_eq
load_metric = refl
