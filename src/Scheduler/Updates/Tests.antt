-- ===== src/Scheduler/Updates/Tests.antt =====
-- The theorems of a node's update run at a concrete node.
use bastion_hub.Prelude.{true, some, [], ◌∷◌, ◌++◌, codes, All}
use bastion_hub.Scheduler.Policy.{ScanItem, update_, unchanged_}
use bastion_hub.Scheduler.Answers.{ContainerResult, answered, broke, scanned_items, NodeEnv}
use bastion_hub.Scheduler.Updates.{run_container_update_node}
use bastion_hub.Scheduler.Updates.Outcomes.{run_container_update_node-Honest, Honest}
use bastion_hub.Scheduler.Updates.Requests.{run_container_update_node-Allowed, Allowed, names_for}

abbrev web : ScanItem
web = record {
  name = codes "web";
  image = codes "web:1.2";
  state = codes "running";
  update_type = codes "tag";
  has_update = update_;
  suggested_image = codes "web:1.3";
}

abbrev cache : ScanItem
cache = record web { name = codes "cache"; update_type = codes "latest"; suggested_image = [] }

abbrev nothing_done : ContainerResult
nothing_done = record {
  ok = true;
  err = [];
  updated = [];
  unchanged = [];
  skipped = [];
  failed = [];
  details = [];
}

-- The upgrade of web succeeds without a list, and the connection breaks for the rest.
abbrev node_a : NodeEnv
node_a = record {
  version = some (codes "2.4.1");
  scan =
      scanned_items (web ∷ cache ∷ record web { name = codes "db"; has_update = unchanged_ } ∷ []);
  cache_saved = true;
  id_by_name = λ name. codes "id-" ++ name;
  upgrade = λ id image. answered nothing_done;
  update = λ ids. broke (codes "agent disconnected");
}

run_container_update_node-Honest_example :
    Honest (run_container_update_node node_a (codes "a") []).0
run_container_update_node-Honest_example = run_container_update_node-Honest node_a (codes "a") []

run_container_update_node-Allowed_example :
    All
      (Allowed node_a (names_for node_a (codes "a") (codes "web" ∷ []) (some (codes "2.4.1"))))
      (run_container_update_node node_a (codes "a") (codes "web" ∷ [])).1
run_container_update_node-Allowed_example =
    run_container_update_node-Allowed node_a (codes "a") (codes "web" ∷ [])
