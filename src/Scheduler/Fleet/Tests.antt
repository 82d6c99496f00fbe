-- ===== src/Scheduler/Fleet/Tests.antt =====
-- A run over two nodes, of which one is offline.
use bastion_hub.Prelude.{
  ◌≡◌, true, ◌||◌, not, none, some, List, [], ◌∷◌, map, Text, codes, text_eq, any,
}
use bastion_hub.Scheduler.Answers.{broke, scanned_items, NodeEnv}
use bastion_hub.Scheduler.Fleet.{ContainerCfg, update_nodes, outcome_of}
use bastion_hub.Scheduler.Fleet.Silence.{has_news, update_nodes_reported}

abbrev no_name : Text → Text → Text
no_name node name = []

abbrev env : Text → NodeEnv
env nid = record {
  version = some (codes "2.4.1");
  scan = scanned_items [];
  cache_saved = true;
  id_by_name = λ name. [];
  upgrade = λ id image. broke [];
  update = λ ids. broke [];
}

abbrev both : List Text
both = codes "a" ∷ codes "b" ∷ []

abbrev cfg : ContainerCfg
cfg = record { node_ids = both; containers = [] }

update_nodes_reported_example :
    (update_nodes no_name no_name
      (λ nid. text_eq nid (codes "a"))
      env
      none
      (codes "a" ∷ [])
      cfg
      true
      []
      both).reported
    ≡ (any (λ nid. not (text_eq nid (codes "a"))) both
        || any
            (λ e. has_news e.1)
            (map
              (outcome_of no_name no_name (λ nid. text_eq nid (codes "a")) env none [])
              (codes "a" ∷ [])))
update_nodes_reported_example =
    update_nodes_reported no_name no_name (λ nid. text_eq nid (codes "a")) env none (codes "a" ∷ [])
      cfg true [] both
