-- ===== src/Inventory/Tests.antt =====
-- A snapshot in which one container has a new image and another is as before.
use bastion_hub.Prelude.{
  ◌≡◌, refl, some, not, pos, List, [], ◌∷◌, ◌++◌, Text, codes, text_eq, lookup, insert, filter, map,
}
use bastion_hub.Inventory.{
  Container, ScanRow, Tables, of_node, fingerprints, stored, replace_node_containers,
}
use bastion_hub.Inventory.Scans.{keeps, replace_node_containers_exact}

abbrev web : Container
web = record {
  id = codes "a/c1";
  node_id = codes "a";
  container_id = codes "c1";
  name = codes "web";
  image = codes "nginx";
  image_id = codes "i1";
  state = codes "running";
  status = [];
  created = 1;
  updated = 2;
  update_type = [];
}

abbrev db : Container
db = record web { id = codes "a/c2"; container_id = codes "c2"; name = codes "db" }

abbrev scan_of : Text → ScanRow
scan_of name = record {
  node_id = codes "a";
  name = name;
  has_update = pos 1;
  note = [];
  scanned_at = 3;
}

abbrev before : Tables
before = record {
  containers = web ∷ db ∷ [];
  container_scan = scan_of (codes "web") ∷ scan_of (codes "db") ∷ scan_of (codes "old") ∷ [];
  container_names = [];
}

abbrev snapshot : List Container
snapshot = record web { image_id = codes "i2" } ∷ db ∷ []

abbrev after : Tables
after = record {
  containers = map (stored (codes "a") 9) snapshot;
  container_scan = scan_of (codes "db") ∷ [];
  container_names = [];
}

replaced : replace_node_containers (codes "a") 9 snapshot before ≡ some after
unfolding replace_node_containers text_eq lookup insert
replaced = refl

replace_node_containers_exact_example :
    (after.container_scan
      ≡ filter
          (keeps (codes "a") (fingerprints (of_node (codes "a") before.containers) []) snapshot)
          before.container_scan)
    × (after.containers
        ≡ filter (λ c. not (text_eq c.node_id (codes "a"))) before.containers
          ++ map (stored (codes "a") 9) snapshot)
    × (after.container_names ≡ before.container_names)
replace_node_containers_exact_example =
    replace_node_containers_exact (codes "a") 9 snapshot before after replaced
