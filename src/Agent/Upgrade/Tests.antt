-- ===== src/Agent/Upgrade/Tests.antt =====
-- An upgrade whose container does not come up.
use bastion_hub.Prelude.{
  ◌≡◌, ◌&&◌, not, refl, true, some, none, is_none, List, [], ◌∷◌, Text, codes, text_eq, lookup,
  Option, if◌then◌else◌,
}
use bastion_hub.Agent.Upgrade.{Service, Files, refuses, upgrade_action}
use bastion_hub.Agent.Upgrade.Rewrites.{reaches, upgrade_action_exact}

abbrev web : Service
web = record { image = codes "web:1.2"; pull_policy = none; rest = [] }

abbrev doc : List (Text × Service)
doc = (codes "web", web) ∷ []

abbrev decode : Text → Option (List (Text × Service))
decode text = some doc

abbrev encode : List (Text × Service) → Option Text
encode d = some (codes "new")

abbrev before : Files
before = record { compose = some (codes "old"); bak = none }

found : lookup (codes "web") doc ≡ some web
unfolding lookup text_eq
found = refl

upgrade_action_exact_example :
    ((upgrade_action decode encode true true
        (codes "web:1.3")
        (some (codes "web"))
        true
        none
        none
        (some (codes "unhealthy"))
        before).0
      ≡ (if reaches (codes "web:1.3") true none && not (refuses web.image (codes "web:1.3"))
          then record { compose = some (codes "new"); bak = some (codes "old") }
          else before))
    × (is_none
          (upgrade_action decode encode true true
            (codes "web:1.3")
            (some (codes "web"))
            true
            none
            none
            (some (codes "unhealthy"))
            before).1
        ≡ (reaches (codes "web:1.3") true none
            && not (refuses web.image (codes "web:1.3"))
            && is_none {A = Text} none
            && is_none (some (codes "unhealthy"))))
upgrade_action_exact_example =
    upgrade_action_exact decode encode (codes "web:1.3") (codes "web") (codes "old") (codes "new")
      doc web true none none (some (codes "unhealthy")) before refl refl found refl
