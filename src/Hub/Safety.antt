-- ===== src/Hub/Safety.antt =====
-- What holds of the hub under every interleaving.
use bastion_hub.Prelude.{
  ℕ, ◌<◌, ◌≡◌, ◌≢◌, refl, Bool, true, false, some, inl, inr, arith, ltb, length, ◌∙◌, sym, ap, Text,
  lookup, ◌==◌, if◌then◌else◌, text_eq, text_eq_iff, lookup-insert, lookup-delete, All-lookup,
  Bool-cases, Option-cases, delete,
}
use bastion_hub.Hub.{
  Hub, Sub, Envelope, Event, Handlers, close_of_closed, update, new, subscribe, unsubscribe, send,
  deliver, serve_begin, serve_end, fire, bind_waiter, client_send, close_chan, buffer,
}
use bastion_hub.Hub.Invariant.{
  WellFormed, Waiters-touch, Waiters-lookup, subscribe-WellFormed, unsubscribe-WellFormed,
  send-WellFormed,
}
use bastion_hub.Hub.Cancel.{cancel_client_subs-WellFormed}
use bastion_hub.Hub.Serve.{
  clients-serve_begin, serve_begin-WellFormed, serve_end-WellFormed, fire-WellFormed,
  cancel_client_subs-keeps,
}
use bastion_hub.Hub.World.{
  World, Phase, reading, read_done, cancelled, ended, Step, subscribes, unsubscribes, sends,
  accepts, calls_back, looks_up, delivers, stops_reading, cancels, leaves, start, Reach, begin,
  next, is_serving,
}

-- An entry of the client map belongs to a connection of that node that is being served.
abbrev pub Serving : World → Type 0
Serving w =
    (node : Text) (c : ℕ)
    → lookup node w.hub.clients ≡ some c
    → (is_serving (w.phase c) ≡ true) × (w.node_of c ≡ node)

pub record Inv (w : World) : Type 0 where
  pub well_formed : WellFormed w.hub
  pub serving : Serving w

deliver-WellFormed :
    (h : Hub) (k : ℕ) (env : Envelope) → WellFormed h → WellFormed (deliver h k env)
unfolding deliver
deliver-WellFormed h k env v = elim (Bool-cases (h.chans k).closed) [
  | inl e ↦ rw e (record { waiters = v.waiters; no_double_close = λ q. cc; numbered = v.numbered })
  | inr e ↦ elim (Bool-cases (ltb (length (h.chans k).queue) buffer)) [
    | inr full ↦ rw (e, full) v
    | inl room ↦
        rw (e, room)
          (record {
            waiters = Waiters-touch h.chans h.next_ch k _ h.subs v.waiters refl;
            no_double_close = v.no_double_close;
            numbered = v.numbered;
          })
  ]
]

Step-WellFormed : {w u : World} → Step w u → WellFormed w.hub → WellFormed u.hub
Step-WellFormed {w} (subscribes id e) v = rw e (subscribe-WellFormed w.hub id v)
Step-WellFormed {w} (unsubscribes id e) v = rw e (unsubscribe-WellFormed w.hub id v)
Step-WellFormed {w} (sends node env e) v = rw e (send-WellFormed w.hub node env v)
Step-WellFormed {w} (accepts node e) v = rw e (serve_begin-WellFormed w.hub node v)
Step-WellFormed {w} (calls_back c set ev _ e) v = rw e (fire-WellFormed w.hub set ev v)
Step-WellFormed {w} (looks_up c env s _ _ e) v = rw e v
Step-WellFormed {w} (delivers before after k env _ e) v = rw e (deliver-WellFormed w.hub k env v)
Step-WellFormed {w} (stops_reading c _ e) v = rw e v
Step-WellFormed {w} (cancels c _ e) v = rw e (cancel_client_subs-WellFormed w.hub c v)
Step-WellFormed {w} (leaves c _ e) v = rw e (serve_end-WellFormed w.hub (w.node_of c) c v)

-- Operations that leave the client map alone.
clients-subscribe : (h : Hub) (id : Text) → (subscribe h id).0.clients ≡ h.clients
unfolding subscribe
clients-subscribe h id = refl

clients-close_chan : (h : Hub) (k : ℕ) → (close_chan h k).clients ≡ h.clients
unfolding close_chan
clients-close_chan h k = elim (Bool-cases (h.chans k).closed) [
  | inl e ↦ rw e refl
  | inr e ↦ rw e refl
]

clients-unsubscribe : (h : Hub) (id : Text) → (unsubscribe h id).clients ≡ h.clients
unfolding unsubscribe
clients-unsubscribe h id = elim (Option-cases (lookup id h.subs)) [
  | inl e ↦ rw (e, unsubscribe) refl
  | inr (s, e) ↦
      rw (e, unsubscribe) (clients-close_chan (record h { subs = delete id h.subs }) s.ch)
]

clients-bind_waiter : (h : Hub) (env : Envelope) (c : ℕ) → (bind_waiter h env c).clients ≡ h.clients
unfolding bind_waiter
clients-bind_waiter h env c = ground arith

clients-client_send :
    (h : Hub) (c : ℕ) (env : Envelope) → (client_send h c env).0.clients ≡ h.clients
unfolding client_send
clients-client_send h c env = ground arith

pub clients-send :
    (h : Hub) (node : Text) (env : Envelope) → (send h node env).0.clients ≡ h.clients
unfolding send
clients-send h node env = elim (Option-cases (lookup node h.clients)) [
  | inl e ↦ rw (e, send) refl
  | inr (c, e) ↦
      rw (e, send) (clients-client_send (bind_waiter h env c) c env ∙ clients-bind_waiter h env c)
]

clients-deliver : (h : Hub) (k : ℕ) (env : Envelope) → (deliver h k env).clients ≡ h.clients
unfolding deliver
clients-deliver h k env = ground arith

clients-fire : (h : Hub) (set : Bool) (e : Event) → (fire h set e).clients ≡ h.clients
clients-fire h true e = refl
clients-fire h false e = refl

-- A step that changes no entry and takes no phase out of service.
keep-Serving :
    (w u : World)
    → u.hub.clients ≡ w.hub.clients
    → u.node_of ≡ w.node_of
    → ((c : ℕ) → is_serving (w.phase c) ≡ true → is_serving (u.phase c) ≡ true)
    → Serving w
    → Serving u
keep-Serving w u same nodes phases s node c e =
    let old = s node c (rw (ap (lookup node) same) at e) in
    (phases c old.0, ap (λ f. f c) nodes ∙ old.1)

serving-update :
    (phase : ℕ → Phase) (d : ℕ) (p : Phase)
    → is_serving p ≡ true
    → (c : ℕ) → is_serving (phase c) ≡ true
    → is_serving (update phase d p c) ≡ true
serving-update phase d p h c s = elim (Bool-cases (d == c)) [ inl e ↦ rw e h | inr e ↦ rw e s ]

accepts-Serving :
    (w : World) (node : Text)
    → WellFormed w.hub
    → Serving w
    → Serving (record w {
      hub = (serve_begin w.hub node).0;
      phase = update w.phase w.hub.next_client reading;
      node_of = update w.node_of w.hub.next_client node;
    })
accepts-Serving w node v s node' c e = ground (
  arith,
  entry,
  text_eq_iff node node',
  s node' c,
  All-lookup (λ x. x.1 < w.hub.next_client) node' {v = c} w.hub.clients v.numbered,
)
  where
    entry :
        (if text_eq node node' then some w.hub.next_client else lookup node' w.hub.clients) ≡ some c
    entry =
        sym (lookup-insert node node' w.hub.next_client w.hub.clients)
        ∙ (sym (ap (lookup node') (clients-serve_begin w.hub node).0) ∙ e)

-- The entry left behind when connection d ends is an old one, of another connection.
left_behind :
    (h : Hub) (d c : ℕ) (mine node : Text)
    → (lookup node h.clients ≡ some c → c ≡ d → mine ≡ node)
    → lookup node (serve_end h mine d).clients ≡ some c
    → (lookup node h.clients ≡ some c) × (c ≢ d)
unfolding serve_end
left_behind h d c mine node own e =
    ground (arith, lookup-delete mine node h.clients, text_eq_iff mine node, own)

leaves-Serving :
    (w : World) (d : ℕ)
    → Serving w
    → Serving (record w { hub = serve_end w.hub (w.node_of d) d; phase = update w.phase d ended })
leaves-Serving w d s node c e =
    let (old, other) =
      left_behind w.hub d c (w.node_of d) node (λ found same. rw (← same) (s node c found).1) e in
    ground (arith, other, s node c old)

Step-Serving : {w u : World} → Step w u → Inv w → Serving u
Step-Serving {w} {u} (subscribes id e) i =
    keep-Serving w u (ap (λ (x : World). x.hub.clients) e ∙ clients-subscribe w.hub id)
      (ap (λ (x : World). x.node_of) e) (λ c h. rw e h) i.serving
Step-Serving {w} {u} (unsubscribes id e) i =
    keep-Serving w u (ap (λ (x : World). x.hub.clients) e ∙ clients-unsubscribe w.hub id)
      (ap (λ (x : World). x.node_of) e) (λ c h. rw e h) i.serving
Step-Serving {w} {u} (sends node env e) i =
    keep-Serving w u (ap (λ (x : World). x.hub.clients) e ∙ clients-send w.hub node env)
      (ap (λ (x : World). x.node_of) e) (λ c h. rw e h) i.serving
Step-Serving {w} (accepts node e) i = rw e (accepts-Serving w node i.well_formed i.serving)
Step-Serving {w} {u} (calls_back c set ev _ e) i =
    keep-Serving w u (ap (λ (x : World). x.hub.clients) e ∙ clients-fire w.hub set ev)
      (ap (λ (x : World). x.node_of) e) (λ c h. rw e h) i.serving
Step-Serving {w} (looks_up c env s _ _ e) i = rw e i.serving
Step-Serving {w} {u} (delivers before after k env _ e) i =
    keep-Serving w u (ap (λ (x : World). x.hub.clients) e ∙ clients-deliver w.hub k env)
      (ap (λ (x : World). x.node_of) e) (λ c h. rw e h) i.serving
Step-Serving {w} {u} (stops_reading c _ e) i =
    keep-Serving w u (ap (λ (x : World). x.hub.clients) e) (ap (λ (x : World). x.node_of) e)
      (λ d h. rw e (serving-update w.phase c read_done refl d h)) i.serving
Step-Serving {w} {u} (cancels c _ e) i =
    keep-Serving w u (ap (λ (x : World). x.hub.clients) e ∙ (cancel_client_subs-keeps w.hub c).0)
      (ap (λ (x : World). x.node_of) e) (λ d h. rw e (serving-update w.phase c cancelled refl d h))
      i.serving
Step-Serving {w} (leaves c _ e) i = rw e (leaves-Serving w c i.serving)

pub new-WellFormed : (handlers : Handlers) → WellFormed (new handlers)
unfolding new
new-WellFormed handlers = record { waiters = tt; no_double_close = λ e. cc; numbered = tt }

start-Inv : (handlers : Handlers) → Inv (start handlers)
unfolding start new lookup
start-Inv handlers = record { well_formed = new-WellFormed handlers; serving = λ node c e. cc }

pub Reach-Inv : {handlers : Handlers} {w : World} → Reach handlers w → Inv w
Reach-Inv {handlers} begin = start-Inv handlers
Reach-Inv (next r st) =
    let i = Reach-Inv r in
    record { well_formed = Step-WellFormed st i.well_formed; serving = Step-Serving st i }

-- Whatever the interleaving, a node that the hub lists as connected has a connection of its own
-- whose ServeAgent has not returned, the channel of each waiter in the map is open, and no channel
-- is closed twice.
pub reachable_hub_sound :
    {handlers : Handlers} {w : World} (node : Text) (c : ℕ) (id : Text) (s : Sub)
    → Reach handlers w
    → lookup node w.hub.clients ≡ some c
    → lookup id w.hub.subs ≡ some s
    → (is_serving (w.phase c) ≡ true)
      × (w.node_of c ≡ node)
      × ((w.hub.chans s.ch).closed ≡ false)
      × (w.hub.panic ≢ some close_of_closed)
reachable_hub_sound {w} node c id s r online_ waiting =
    let i = Reach-Inv r in
    let v = i.well_formed in
    let own = i.serving node c online_ in
    (
      own.0,
      own.1,
      (Waiters-lookup w.hub.chans w.hub.next_ch id s w.hub.subs v.waiters waiting).0,
      v.no_double_close,
    )
