-- ===== src/Monitor/Tests.antt =====
-- The theorems of the container monitor at a concrete inventory.
use bastion_hub.Prelude.{
  ◌≡◌, refl, not, [], ◌∷◌, map, codes, filter, insert, delete, text_eq, has_prefix,
}
use bastion_hub.Monitor.{
  Container, scan, current, fresh, is_bad, bad_state, clean_exit, exit_code, read_code, read_digits,
  read_number, key, shown_name,
}
use bastion_hub.Monitor.Announce.{scan_announces_new, bad_key}
use bastion_hub.Monitor.Exits.{Digits}

abbrev crashed : Container
crashed = record {
  node_id = codes "a";
  container_id = codes "c1";
  name = codes "web";
  display_name = [];
  state = codes "exited";
  status = codes "Exited (137) 5 minutes ago";
}

abbrev stopped : Container
stopped = record crashed { name = codes "job"; status = codes "Exited (0) 2 hours ago" }

-- Only the crashed container is announced, under its name.
announced_once :
    (scan (λ n. n) (crashed ∷ stopped ∷ []) []).1
    ≡ record {
      node = codes "a";
      name = codes "web";
      state = codes "exited";
      status = codes "Exited (137) 5 minutes ago";
    }
      ∷ []
unfolding scan current fresh is_bad bad_state clean_exit exit_code read_code read_digits read_number
    key shown_name insert delete text_eq has_prefix
announced_once = refl

status_137 : Digits (codes "137")
status_137 = (refl, (refl, (refl, tt)))

scan_announces_new_example :
    (scan (λ n. n) (crashed ∷ stopped ∷ []) (scan (λ n. n) (stopped ∷ []) []).0).1
    ≡ map
        (λ e. e.1)
        (filter
          (λ e. not (bad_key e.0 (stopped ∷ [])))
          (current (λ n. n) (crashed ∷ stopped ∷ []) []))
scan_announces_new_example = scan_announces_new (λ n. n) (stopped ∷ []) (crashed ∷ stopped ∷ []) []
