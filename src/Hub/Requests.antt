-- ===== src/Hub/Requests.antt =====
-- RequestOne: what it answers, and what it leaves in the hub.
use bastion_hub.Prelude.{
  ℕ, ◌≡◌, refl, true, false, Option, none, some, inl, inr, [], arith, ltb, length, ◌∙◌, ap, Text,
  lookup, if◌then◌else◌, text_eq, text_eq_iff, text_eq_refl, lookup-insert_self, lookup-delete,
  Bool-cases, Option-cases, delete, insert,
}
use bastion_hub.Hub.{
  Hub, Sub, Envelope, HubError, err_offline, err_timeout, subscribe, unsubscribe, send, deliver,
  route, cancel_client_subs, bind_waiter, client_send, close_chan, buffer, request_one, receive,
  message, failed, empty_chan, bound_to,
}
use bastion_hub.Hub.Invariant.{WellFormed, subscribe-WellFormed, send-WellFormed}
use bastion_hub.Hub.Cancel.{cancel_client_subs_exact, queue-cancel_client_subs}

subs-close_chan : (h : Hub) (k : ℕ) → (close_chan h k).subs ≡ h.subs
unfolding close_chan
subs-close_chan h k = elim (Bool-cases (h.chans k).closed) [ inl e ↦ rw e refl | inr e ↦ rw e refl ]

-- Unsubscribe takes out the waiter of its id and no other.
lookup-unsubscribe :
    (h : Hub) (id j : Text)
    → lookup j (unsubscribe h id).subs ≡ (if text_eq id j then none else lookup j h.subs)
unfolding unsubscribe
lookup-unsubscribe h id j = elim (Option-cases (lookup id h.subs)) [
  | inl e ↦ rw (e, unsubscribe) (ground (arith, text_eq_iff id j, e))
  | inr (s, e) ↦
      rw (e, unsubscribe)
        (ap (lookup j) (subs-close_chan (record h { subs = delete id h.subs }) s.ch)
          ∙ lookup-delete id j h.subs)
]

-- The state in which the select of RequestOne starts, when the send went through.
pub sent-waiter :
    (h : Hub) (node : Text) (env : Envelope) (c : ℕ)
    → text_eq env.id [] ≡ false
    → lookup node h.clients ≡ some c
    → ltb (length (h.outs c)) buffer ≡ true
    → let h1 = (subscribe h env.id).0 in
      ((send h1 node env).1 ≡ none)
      × (lookup env.id (send h1 node env).0.subs
          ≡ some (record { client = some c; ch = h.next_ch }))
      × (((send h1 node env).0.chans h.next_ch) ≡ empty_chan)
unfolding subscribe send bind_waiter client_send
sent-waiter h node env c named online_ room =
    let fresh : Sub = record { client = none; ch = h.next_ch } in
    let bound : Sub = record { client = some c; ch = h.next_ch } in
    ground (
      arith,
      lookup-insert_self env.id fresh h.subs,
      lookup-insert_self env.id bound (insert env.id fresh h.subs),
    )

-- RequestOne leaves no waiter of its id behind, on any branch and whatever the other goroutines do.
pub request_one-unsubscribes :
    (h : Hub) (node : Text) (env : Envelope) (meanwhile : Hub → Hub)
    → lookup env.id (request_one h node env meanwhile).0.subs ≡ none
unfolding request_one
request_one-unsubscribes h node env meanwhile =
    elim (Option-cases (send (subscribe h env.id).0 node env).1) [
      | inl e ↦ rw (e, request_one) (removed (meanwhile (send (subscribe h env.id).0 node env).0))
      | inr (f, e) ↦ rw (e, request_one) (removed (send (subscribe h env.id).0 node env).0)
    ]
  where
    removed : (g : Hub) → lookup env.id (unsubscribe g env.id).subs ≡ none
    removed g = lookup-unsubscribe g env.id env.id ∙ (rw (text_eq_refl env.id) refl)

-- An envelope for a waiter whose channel is new is what the channel then yields.
receive-route :
    (h : Hub) (s : Sub) (reply : Envelope)
    → lookup reply.id h.subs ≡ some s
    → h.chans s.ch ≡ empty_chan
    → receive (route h reply) s.ch ≡ message reply
unfolding receive route deliver
receive-route h s reply e fresh = rw (e, route) (ground (arith, fresh))

receive-cancel :
    (h : Hub) (c : ℕ) (id : Text) (s : Sub)
    → WellFormed h
    → lookup id h.subs ≡ some s
    → bound_to c s ≡ true
    → (h.chans s.ch).queue ≡ []
    → receive (cancel_client_subs h c) s.ch ≡ failed err_offline
unfolding receive
receive-cancel h c id s v e bound quiet = ground (
  arith,
  quiet,
  bound,
  queue-cancel_client_subs h c s.ch,
  (cancel_client_subs_exact h c id s v e).1,
)

receive_quiet : (h : Hub) (k : ℕ) → h.chans k ≡ empty_chan → receive h k ≡ failed err_timeout
unfolding receive
receive_quiet h k fresh = ground (arith, fresh)

abbrev after_send : Hub → Text → Envelope → Hub × Option HubError
after_send h node env = send (subscribe h env.id).0 node env

request_one-sent :
    (h : Hub) (node : Text) (env : Envelope) (meanwhile : Hub → Hub)
    → (after_send h node env).1 ≡ none
    → (request_one h node env meanwhile).1 ≡ receive (meanwhile (after_send h node env).0) h.next_ch
unfolding request_one
request_one-sent h node env meanwhile e = rw (e, request_one) refl

request_one-failed :
    (h : Hub) (node : Text) (env : Envelope) (meanwhile : Hub → Hub) (f : HubError)
    → (after_send h node env).1 ≡ some f
    → (request_one h node env meanwhile).1 ≡ failed f
unfolding request_one
request_one-failed h node env meanwhile f e = rw (e, request_one) refl

after_send_offline :
    (h : Hub) (node : Text) (env : Envelope)
    → lookup node h.clients ≡ none
    → (after_send h node env).1 ≡ some err_offline
unfolding subscribe send
after_send_offline h node env e = rw (e, send) refl

-- The answers of RequestOne for a connected node with room in its send buffer: the reply that its
-- agent sends, ErrOffline as soon as the connection that carried the request ends, and ErrTimeout
-- when neither happens. A node that is not connected gives ErrOffline at once.
pub request_one_outcomes :
    (h : Hub) (node other : Text) (env reply : Envelope) (c : ℕ)
    → WellFormed h
    → text_eq env.id [] ≡ false
    → lookup node h.clients ≡ some c
    → ltb (length (h.outs c)) buffer ≡ true
    → reply.id ≡ env.id
    → lookup other h.clients ≡ none
    → ((request_one h node env (λ g. route g reply)).1 ≡ message reply)
      × ((request_one h node env (λ g. cancel_client_subs g c)).1 ≡ failed err_offline)
      × ((request_one h node env (λ g. g)).1 ≡ failed err_timeout)
      × ((request_one h other env (λ g. g)).1 ≡ failed err_offline)
request_one_outcomes h node other env reply c v named online_ room same offline =
    let (went, waiting, fresh) = sent-waiter h node env c named online_ room in
    let h2 = (after_send h node env).0 in
    let bound : Sub = record { client = some c; ch = h.next_ch } in
    let v2 : WellFormed h2 =
      send-WellFormed (subscribe h env.id).0 node env (subscribe-WellFormed h env.id v) in
    (
      request_one-sent h node env _ went ∙ receive-route h2 bound reply (rw same waiting) fresh,
      request_one-sent h node env _ went
          ∙ receive-cancel h2 c env.id bound v2 waiting (ground arith) (rw fresh refl),
      request_one-sent h node env _ went ∙ receive_quiet h2 h.next_ch fresh,
      request_one-failed h other env _ err_offline (after_send_offline h other env offline),
    )
