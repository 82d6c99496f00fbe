-- ===== src/Hub/Tests.antt =====
-- The hub's theorems at concrete hubs.
use bastion_hub.Prelude.{
  ◌≡◌, ◌≢◌, refl, true, false, none, some, [], Text, codes, lookup, insert, delete, text_eq, ◌==◌,
  if◌then◌else◌,
}
use bastion_hub.Hub.{
  Hub, Sub, Envelope, Handlers, send_on_closed, close_of_closed, err_offline, err_timeout, new,
  send, subscribe, unsubscribe, deliver, route, cancel_client_subs, serve_begin, serve_end,
  request_one, message, failed, bound_to,
}
use bastion_hub.Hub.Invariant.{WellFormed, subscribe-WellFormed, send-WellFormed}
use bastion_hub.Hub.Cancel.{cancel_client_subs_exact}
use bastion_hub.Hub.Serve.{serve_begin-WellFormed}
use bastion_hub.Hub.World.{
  World, reading, is_serving, start, Reach, begin, next, accepts, subscribes, sends,
}
use bastion_hub.Hub.Safety.{new-WellFormed, reachable_hub_sound}
use bastion_hub.Hub.Requests.{request_one-unsubscribes, request_one_outcomes}
use bastion_hub.Hub.Races.{replaced_connection_end, late_send_waits, late_route_panics}

abbrev all_set : Handlers
all_set = record {
  on_connect = true;
  on_disconnect = true;
  on_hello = true;
  on_metrics = true;
  on_new_keys = true;
  on_containers = true;
}

abbrev node_a : Text
node_a = codes "a"

abbrev node_b : Text
node_b = codes "b"

abbrev scan : Envelope
scan = record { kind = codes "container_scan"; id = codes "r1"; payload = [] }

abbrev scan_result : Envelope
scan_result = record { kind = codes "result"; id = codes "r1"; payload = codes "{}" }

-- Node a is connected as connection 0.
abbrev connected : Hub
connected = (serve_begin (new all_set) node_a).0

connected-WellFormed : WellFormed connected
connected-WellFormed = serve_begin-WellFormed (new all_set) node_a (new-WellFormed all_set)

-- A waiter for r1 that no Send has bound.
abbrev waiting : Hub
waiting = (subscribe connected (codes "r1")).0

waiting-WellFormed : WellFormed waiting
waiting-WellFormed = subscribe-WellFormed connected (codes "r1") connected-WellFormed

-- The request is on its way.
abbrev asked : Hub
asked = (send waiting node_a scan).0

asked-WellFormed : WellFormed asked
asked-WellFormed = send-WellFormed waiting node_a scan waiting-WellFormed

abbrev free_waiter : Sub
free_waiter = record { client = none; ch = 0 }

abbrev bound_waiter : Sub
bound_waiter = record { client = some 0; ch = 0 }

entry_a : lookup node_a connected.clients ≡ some 0
unfolding serve_begin new lookup insert delete text_eq
entry_a = refl

no_entry_b : lookup node_b connected.clients ≡ none
unfolding serve_begin new lookup insert delete text_eq
no_entry_b = refl

free_entry : lookup (codes "r1") waiting.subs ≡ some free_waiter
unfolding subscribe serve_begin new lookup insert delete text_eq
free_entry = refl

bound_entry : lookup (codes "r1") asked.subs ≡ some bound_waiter
unfolding send subscribe serve_begin new lookup insert delete text_eq
bound_entry = refl

cancel_client_subs_exact_example :
    (lookup (codes "r1") (cancel_client_subs asked 0).subs
      ≡ (if bound_to 0 bound_waiter then none else some bound_waiter))
    × (((cancel_client_subs asked 0).chans 0).closed ≡ bound_to 0 bound_waiter)
cancel_client_subs_exact_example =
    cancel_client_subs_exact asked 0 (codes "r1") bound_waiter asked-WellFormed bound_entry

request_one-unsubscribes_example :
    lookup (codes "r1") (request_one connected node_a scan (λ g. cancel_client_subs g 0)).0.subs
    ≡ none
request_one-unsubscribes_example =
    request_one-unsubscribes connected node_a scan (λ g. cancel_client_subs g 0)

request_one_outcomes_example :
    ((request_one connected node_a scan (λ g. route g scan_result)).1 ≡ message scan_result)
    × ((request_one connected node_a scan (λ g. cancel_client_subs g 0)).1 ≡ failed err_offline)
    × ((request_one connected node_a scan (λ g. g)).1 ≡ failed err_timeout)
    × ((request_one connected node_b scan (λ g. g)).1 ≡ failed err_offline)
unfolding serve_begin new text_eq
request_one_outcomes_example =
    request_one_outcomes connected node_a node_b scan scan_result 0 connected-WellFormed refl
      entry_a refl refl no_entry_b

replaced_connection_end_example :
    let begun = (serve_begin connected node_a).0 in
    let done = serve_end (cancel_client_subs begun 0) node_a 0 in
    (begun.socket_closed 0 ≡ true)
    × (lookup node_a done.clients ≡ some (serve_begin connected node_a).1)
    × (done.events ≡ begun.events)
replaced_connection_end_example =
    replaced_connection_end connected node_a 0 connected-WellFormed entry_a

entry_a_waiting : lookup node_a waiting.clients ≡ some 0
unfolding subscribe serve_begin new lookup insert delete text_eq
entry_a_waiting = refl

late_send_waits_example :
    let h' = serve_end (send (cancel_client_subs waiting 0) node_a scan).0 node_a 0 in
    (lookup node_a h'.clients ≡ none)
    × (lookup (codes "r1") h'.subs ≡ some bound_waiter)
    × ((h'.chans 0).closed ≡ false)
unfolding text_eq
late_send_waits_example =
    late_send_waits waiting node_a scan 0 free_waiter waiting-WellFormed entry_a_waiting refl
      free_entry refl

late_route_panics_example :
    (deliver (unsubscribe asked (codes "r1")) 0 scan_result).panic ≡ some send_on_closed
late_route_panics_example =
    late_route_panics asked scan_result bound_waiter asked-WellFormed bound_entry

abbrev asked_world : World
asked_world = record {
  hub = asked;
  phase = λ c. (if ◌==◌ 0 c then reading else (start all_set).phase c);
  node_of = λ c. (if ◌==◌ 0 c then node_a else (start all_set).node_of c);
  routing = [];
}

asked-Reach : Reach all_set asked_world
unfolding start new
asked-Reach =
    next (next (next begin (accepts node_a refl)) (subscribes (codes "r1") refl))
      (sends node_a scan refl)

entry_a_asked : lookup node_a asked.clients ≡ some 0
unfolding send subscribe serve_begin new lookup insert delete text_eq
entry_a_asked = refl

reachable_hub_sound_example :
    (is_serving (asked_world.phase 0) ≡ true)
    × (asked_world.node_of 0 ≡ node_a)
    × ((asked_world.hub.chans 0).closed ≡ false)
    × (asked_world.hub.panic ≢ some close_of_closed)
reachable_hub_sound_example =
    reachable_hub_sound {w = asked_world} node_a 0 (codes "r1") bound_waiter asked-Reach
      entry_a_asked bound_entry
