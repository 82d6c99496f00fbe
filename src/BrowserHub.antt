-- ===== src/BrowserHub.antt =====
-- master/internal/browserhub/hub.go: the hub of connected browsers. Each function is one part of a
-- goroutine between two points where another can run.
pub mod World
mod Tests
use bastion_hub.Prelude.{
  ℕ, zero, suc, Bool, true, false, List, [], ◌∷◌, ◌++◌, map, Text, filter, not, length, ltb, ◌==◌,
  Option, none, some, if◌then◌else◌,
}

-- A client, whose channel `send` is its queue and whether it is closed.
pub record Client : Type 0 where
  pub id : ℕ
  pub queue : List Text
  pub closed : Bool

-- A call of Broadcast that has copied the clients: the message, and those it has not come to yet.
pub record Broadcast : Type 0 where
  pub msg : Text
  pub pending : List ℕ

-- The hub's map is the list `registered`; `all_clients` holds every client there has been, and
-- `panicked` says that the process has ended by a send on a closed channel.
pub record Hub : Type 0 where
  pub next_id : ℕ
  pub registered : List ℕ
  pub all_clients : List Client
  pub broadcasts : List Broadcast
  pub panicked : Bool

abbrev pub buffer_size : ℕ
buffer_size = 128

abbrev pub new_hub : Hub
new_hub = record {
  next_id = 0;
  registered = [];
  all_clients = [];
  broadcasts = [];
  panicked = false;
}

unfoldable pub update_client : ℕ → (Client → Client) → List Client → List Client
update_client id f [] = []
update_client id f (c ∷ cs) =
    let rest = update_client id f cs in if c.id == id then f c ∷ cs else c ∷ rest

unfoldable pub find_client : ℕ → List Client → Option Client
find_client id [] = none
find_client id (c ∷ cs) = if c.id == id then some c else find_client id cs

-- ServeBrowser up to its pumps
unfoldable pub serve_browser : Hub → Hub
serve_browser h =
    let id = suc h.next_id in
    record h {
      next_id = id;
      registered = id ∷ h.registered;
      all_clients = record { id = id; queue = []; closed = false } ∷ h.all_clients;
    }

-- delete(h.clients, id) after readPump
unfoldable pub unregister : ℕ → Hub → Hub
unregister id h = record h { registered = filter (λ j. not (j == id)) h.registered }

-- close(c.send)
unfoldable pub close_send : ℕ → Hub → Hub
unfolding update_client
close_send id h = record h {
  all_clients = update_client id (λ (c : Client). record c { closed = true }) h.all_clients;
}

-- Broadcast up to mu.RUnlock
unfoldable pub copy_clients : Text → Hub → Hub
copy_clients msg h = record h {
  broadcasts = record { msg = msg; pending = h.registered } ∷ h.broadcasts;
}

-- The select of Broadcast: the client's queue, and whether the send panics.
unfoldable pub offer : Text → Option Client → ℕ → List Client → List Client × Bool
unfolding update_client
offer msg none id cs = (cs, false)
offer msg (some c) id cs =
    let sent = update_client id (λ (d : Client). record d { queue = d.queue ++ msg ∷ [] }) cs in
    if c.closed
    then (cs, true)
    else if ltb (length c.queue) buffer_size
    then (sent, false)
    else (cs, false)

unfoldable pub send_one : Broadcast → List Client → List Broadcast × List Client × Bool
unfolding offer find_client
send_one b cs = elim b.pending [
  | [] ↦ ([], cs, false)
  | id ∷ rest ↦
      let (cs', panics) = offer b.msg (find_client id cs) id cs in
      (record b { pending = rest } ∷ [], cs', panics)
]

-- One turn of the i-th call of Broadcast.
unfoldable pub send_nth : ℕ → List Broadcast → List Client → List Broadcast × List Client × Bool
unfolding send_one
send_nth i [] cs = ([], cs, false)
send_nth zero (b ∷ bs) cs = let (bs', cs', panics) = send_one b cs in (bs' ++ bs, cs', panics)
send_nth (suc i) (b ∷ bs) cs = let (bs', cs', panics) = send_nth i bs cs in (b ∷ bs', cs', panics)

unfoldable pub send_next : ℕ → Hub → Hub
unfolding send_nth
send_next i h =
    let (bs, cs, panics) = send_nth i h.broadcasts h.all_clients in
    record h { broadcasts = bs; all_clients = cs; panicked = panics }

-- writePump's receive
unfoldable pub take_head : List Text → List Text
take_head [] = []
take_head (msg ∷ queue) = queue

unfoldable pub pump : ℕ → Hub → Hub
unfolding update_client take_head
pump id h = record h {
  all_clients =
      update_client id (λ (c : Client). record c { queue = take_head c.queue }) h.all_clients;
}
