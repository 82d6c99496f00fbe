-- ===== src/Hub/World.antt =====
-- The hub under concurrent goroutines: every interleaving of the critical sections of Subscribe,
-- Unsubscribe, Send, readPump with route, and ServeAgent.
use bastion_hub.Prelude.{ℕ, ◌≡◌, Bool, true, false, some, List, [], ◌∷◌, ◌++◌, Text, lookup}
use bastion_hub.Hub.{
  Hub, Sub, Envelope, Event, Handlers, update, new, subscribe, unsubscribe, send, deliver,
  cancel_client_subs, serve_begin, serve_end, fire,
}

-- Where the goroutine of a connection's ServeAgent stands: before it, in readPump, behind readPump,
-- behind cancelClientSubs, returned.
pub data Phase : Type 0 where
  idle reading read_done cancelled ended : Phase

pub record World : Type 0 where
  pub hub : Hub
  pub phase : ℕ → Phase
  pub node_of : ℕ → Text
  -- envelopes whose waiter route has looked up and not yet served
  pub routing : List (ℕ × Envelope)

pub data Step (w u : World) : Type 0 where
  subscribes : (id : Text) → u ≡ record w { hub = (subscribe w.hub id).0 } → Step w u
  unsubscribes : (id : Text) → u ≡ record w { hub = unsubscribe w.hub id } → Step w u
  sends : (node : Text) (env : Envelope) → u ≡ record w { hub = (send w.hub node env).0 } → Step w u
  accepts :
      (node : Text)
      → u ≡ record w {
        hub = (serve_begin w.hub node).0;
        phase = update w.phase w.hub.next_client reading;
        node_of = update w.node_of w.hub.next_client node;
      }
      → Step w u
  calls_back :
      (c : ℕ) (set : Bool) (e : Event)
      → w.phase c ≡ reading
      → u ≡ record w { hub = fire w.hub set e }
      → Step w u
  looks_up :
      (c : ℕ) (env : Envelope) (s : Sub)
      → w.phase c ≡ reading
      → lookup env.id w.hub.subs ≡ some s
      → u ≡ record w { routing = (s.ch, env) ∷ w.routing }
      → Step w u
  delivers :
      (before after : List (ℕ × Envelope)) (k : ℕ) (env : Envelope)
      → w.routing ≡ before ++ (k, env) ∷ after
      → u ≡ record w { hub = deliver w.hub k env; routing = before ++ after }
      → Step w u
  stops_reading :
      (c : ℕ) → w.phase c ≡ reading → u ≡ record w { phase = update w.phase c read_done } → Step w u
  cancels :
      (c : ℕ)
      → w.phase c ≡ read_done
      → u ≡ record w { hub = cancel_client_subs w.hub c; phase = update w.phase c cancelled }
      → Step w u
  leaves :
      (c : ℕ)
      → w.phase c ≡ cancelled
      → u ≡ record w { hub = serve_end w.hub (w.node_of c) c; phase = update w.phase c ended }
      → Step w u

unfoldable pub start : Handlers → World
start handlers = record { hub = new handlers; phase = λ c. idle; node_of = λ c. []; routing = [] }

pub data Reach (handlers : Handlers) : World → Type 0 where
  begin : Reach handlers (start handlers)
  next : {w u : World} → Reach handlers w → Step w u → Reach handlers u

-- ServeAgent has begun for the connection and has not returned.
abbrev pub is_serving : Phase → Bool
is_serving idle = false
is_serving reading = true
is_serving read_done = true
is_serving cancelled = true
is_serving ended = false
