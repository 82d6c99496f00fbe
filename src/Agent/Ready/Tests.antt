-- ===== src/Agent/Ready/Tests.antt =====
-- A container without a health check that starts, is asked three times, and has then run for five
-- seconds.
use bastion_hub.Prelude.{ℕ, ◌≡◌, refl, true, List, [], ◌∷◌, codes, text_eq, none, some}
use bastion_hub.Agent.Ready.{
  Runtime, Poll, seen, ready, fails, wait_container_ready, wait_stable, no_health_stability_window,
}
use bastion_hub.Agent.Ready.Window.{SettledIn, wait_container_ready-SettledIn}

abbrev up : Runtime
up = record {
  image_id = codes "sha256:1";
  running = true;
  status = codes "running";
  health = [];
  error = [];
}

abbrev starting : Runtime
starting = record up { health = codes "starting" }

abbrev at : Runtime → ℕ → Poll
at s t = record { answer = seen s; now = t; ended = none }

abbrev turns : List Poll
turns = at starting 0 ∷ at up 1000000000 ∷ at up 2000000000 ∷ at up 6000000000 ∷ []

comes_up : wait_container_ready (codes "web") turns ≡ ready up
unfolding wait_container_ready text_eq
comes_up = refl

times_out :
    wait_stable no_health_stability_window
      (codes "web")
      (record (at up 0) { ended = some (codes "canceled") } ∷ [])
      none
    ≡ fails (codes "container web did not become healthy: canceled")
unfolding wait_stable text_eq
times_out = refl

wait_container_ready-SettledIn_example : SettledIn no_health_stability_window turns up
wait_container_ready-SettledIn_example =
    wait_container_ready-SettledIn (codes "web") turns up comes_up
