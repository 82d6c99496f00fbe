-- ===== src/Hub.antt =====
-- master/internal/agenthub/hub.go and request.go: the hub of connected agents. Each function below
-- is one critical section of the Go code, or the part of a goroutine between two of them; a `*Client`
-- and a channel are numbers, which stand for the pointers that the code compares.
pub mod Invariant
pub mod Cancel
pub mod Serve
pub mod World
pub mod Safety
pub mod Requests
pub mod Races
mod Tests
use bastion_hub.Prelude.{
  ℕ, suc, ◌+◌, ◌≡◌, Bool, true, false, ◌&&◌, not, Option, none, some, List, [], ◌∷◌, ◌++◌, map,
  Text, codes, text_eq, lookup, insert, delete, length, filter, ltb, ◌==◌, if◌then◌else◌,
}

-- proto.Envelope
pub record Envelope : Type 0 where
  pub kind : Text
  pub id : Text
  pub payload : Text

-- chan *proto.Envelope
pub record Chan : Type 0 where
  pub queue : List Envelope
  pub closed : Bool

-- `client` is nil until a Send binds the waiter to a connection.
pub record Sub : Type 0 where
  pub client : Option ℕ
  pub ch : ℕ

-- which callbacks are set
pub record Handlers : Type 0 where
  pub on_connect : Bool
  pub on_disconnect : Bool
  pub on_hello : Bool
  pub on_metrics : Bool
  pub on_new_keys : Bool
  pub on_containers : Bool

-- a call of a callback
pub data Event : Type 0 where
  connect : Text → Event
  disconnect : Text → Event
  hello : Text → Text → Event
  metrics : Text → Text → Event
  new_keys : Text → Text → Event
  containers : Text → Text → Event

-- the runtime panics of Go channels
pub data Panic : Type 0 where
  send_on_closed close_of_closed : Panic

pub data HubError : Type 0 where
  err_offline err_slow_consumer err_timeout : HubError

-- The hub with the heap that it shares: channels, send buffers and sockets.
pub record Hub : Type 0 where
  pub handlers : Handlers
  pub clients : List (Text × ℕ)
  pub subs : List (Text × Sub)
  pub chans : ℕ → Chan
  pub next_ch : ℕ
  pub outs : ℕ → List Envelope
  pub socket_closed : ℕ → Bool
  pub next_client : ℕ
  pub events : List Event
  pub panic : Option Panic

abbrev pub update {ℓ} : {A : Type ℓ} → (ℕ → A) → ℕ → A → ℕ → A
update f i a j = if i == j then a else f j

abbrev pub empty_chan : Chan
empty_chan = record { queue = []; closed = false }

pub new : Handlers → Hub
new handlers = record {
  handlers = handlers;
  clients = [];
  subs = [];
  chans = λ k. empty_chan;
  next_ch = 0;
  outs = λ c. [];
  socket_closed = λ c. false;
  next_client = 0;
  events = [];
  panic = none;
}

abbrev pub is_some {ℓ} : {A : Type ℓ} → Option A → Bool
is_some none = false
is_some (some a) = true

pub online : Hub → Text → Bool
online h node = is_some (lookup node h.clients)

pub client : Hub → Text → Option ℕ
client h node = lookup node h.clients

-- the capacity of both kinds of channel
abbrev pub buffer : ℕ
buffer = 64

-- Client.send: the envelope goes into the buffer, or the buffer is full.
pub client_send : Hub → ℕ → Envelope → Hub × Option HubError
client_send h c env =
    if ltb (length (h.outs c)) buffer
    then (record h { outs = update h.outs c (h.outs c ++ env ∷ []) }, none)
    else (h, some err_slow_consumer)

-- The locked part of Send: the waiter of the envelope's id is bound to the connection.
pub bind_waiter : Hub → Envelope → ℕ → Hub
bind_waiter h env c = if text_eq env.id [] then h else elim (lookup env.id h.subs) [
  | none ↦ h
  | some s ↦ record h { subs = insert env.id (record s { client = some c }) h.subs }
]

pub send : Hub → Text → Envelope → Hub × Option HubError
unfolding bind_waiter client_send
send h node env = elim (lookup node h.clients) [
  | none ↦ (h, some err_offline)
  | some c ↦ client_send (bind_waiter h env c) c env
]

pub subscribe : Hub → Text → Hub × ℕ
subscribe h id = (
  record h {
    subs = insert id (record { client = none; ch = h.next_ch }) h.subs;
    chans = update h.chans h.next_ch empty_chan;
    next_ch = suc h.next_ch;
  },
  h.next_ch,
)

-- close(ch) panics on a closed channel.
pub close_chan : Hub → ℕ → Hub
close_chan h k =
    if (h.chans k).closed
    then record h { panic = some close_of_closed }
    else record h { chans = update h.chans k (record (h.chans k) { closed = true }) }

pub unsubscribe : Hub → Text → Hub
unfolding close_chan
unsubscribe h id = elim (lookup id h.subs) [
  | none ↦ h
  | some s ↦ close_chan (record h { subs = delete id h.subs }) s.ch
]

-- The second half of route, after the lock is released: `select { case s.ch <- env: default: }`.
-- A send to a closed channel panics, also under select; a full one drops the envelope.
pub deliver : Hub → ℕ → Envelope → Hub
deliver h k env =
    if (h.chans k).closed
    then record h { panic = some send_on_closed }
    else if ltb (length (h.chans k).queue) buffer
    then record h {
      chans = update h.chans k (record (h.chans k) { queue = (h.chans k).queue ++ env ∷ [] });
    }
    else h

-- route, with nothing between its two halves
pub route : Hub → Envelope → Hub
unfolding deliver
route h env = elim (lookup env.id h.subs) [ none ↦ h | some s ↦ deliver h s.ch env ]

abbrev pub bound_to : ℕ → Sub → Bool
bound_to c s = elim s.client [ none ↦ false | some d ↦ d == c ]

-- the loop over `doomed`: each waiter's channel is closed and the waiter deleted
pub cancel_all : Hub → List (Text × Sub) → Hub
unfolding close_chan
cancel_all h [] = h
cancel_all h ((id, s) ∷ doomed) =
    let h' = close_chan h s.ch in cancel_all (record h' { subs = delete id h'.subs }) doomed

pub cancel_client_subs : Hub → ℕ → Hub
unfolding cancel_all
cancel_client_subs h c = cancel_all h (filter (λ e. bound_to c e.1) h.subs)

abbrev pub fire : Hub → Bool → Event → Hub
fire h set e = if set then record h { events = h.events ++ e ∷ [] } else h

-- ServeAgent up to the start of the pumps: a previous connection's socket is closed, and the node's
-- entry is replaced.
pub serve_begin : Hub → Text → Hub × ℕ
serve_begin h node =
    let c = h.next_client in
    let socket : ℕ → Bool = elim (lookup node h.clients) [
      | none ↦ h.socket_closed
      | some prev ↦ update h.socket_closed prev true
    ] in
    (
      fire
          (record h {
            socket_closed = socket;
            clients = insert node c h.clients;
            outs = update h.outs c [];
            next_client = suc c;
          })
          h.handlers.on_connect (connect node),
      c,
    )

-- ServeAgent after the cancelled waiters: the entry goes if it is still this connection's.
pub serve_end : Hub → Text → ℕ → Hub
serve_end h node c = elim (lookup node h.clients) [
  | none ↦ h
  | some d ↦
      if d == c
      then fire (record h { clients = delete node h.clients }) h.handlers.on_disconnect
          (disconnect node)
      else h
]

-- One message of readPump. `decodes kind payload` says that the JSON payload decodes as that kind's
-- data.
pub read_message : (Text → Text → Bool) → Hub → Text → Envelope → Hub
unfolding route
read_message decodes h node env =
    if text_eq env.kind (codes "hello")
    then fire h (decodes env.kind env.payload && h.handlers.on_hello) (hello node env.payload)
    else if text_eq env.kind (codes "metrics")
    then fire h (decodes env.kind env.payload && h.handlers.on_metrics) (metrics node env.payload)
    else if text_eq env.kind (codes "new_keys")
    then fire h (decodes env.kind env.payload && h.handlers.on_new_keys) (new_keys node env.payload)
    else if text_eq env.kind (codes "containers")
    then fire h (decodes env.kind env.payload && h.handlers.on_containers)
        (containers node env.payload)
    else if text_eq env.id []
    then h
    else route h env

pub data Reply : Type 0 where
  message : Envelope → Reply
  failed : HubError → Reply

-- What the select of RequestOne answers: the first message, a closed channel, or the timeout.
pub receive : Hub → ℕ → Reply
receive h k = elim (h.chans k).queue [
  | [] ↦ if (h.chans k).closed then failed err_offline else failed err_timeout
  | env ∷ rest ↦ message env
]

-- RequestOne. `meanwhile` is what the other goroutines do to the hub between the send and the
-- moment at which the select answers; the deferred Unsubscribe comes last.
pub request_one : Hub → Text → Envelope → (Hub → Hub) → Hub × Reply
unfolding subscribe send unsubscribe receive
request_one h node env meanwhile =
    let (h1, k) = subscribe h env.id in
    let (h2, failure) = send h1 node env in
    elim failure [
      | some e ↦ (unsubscribe h2 env.id, failed e)
      | none ↦ let h3 = meanwhile h2 in (unsubscribe h3 env.id, receive h3 k)
    ]
