-- ===== src/Hub/Races.antt =====
-- Orders of the hub's critical sections that the code allows: a replaced connection, and two that go
-- wrong.
use bastion_hub.Prelude.{
  ℕ, ◌<◌, ◌≡◌, true, false, none, some, [], arith, ◌∙◌, ap, Text, lookup, text_eq,
  lookup-insert_self, lookup-delete_self, All-lookup,
}
use bastion_hub.Hub.{
  Hub, Chan, Sub, Envelope, send_on_closed, send, unsubscribe, deliver, close_chan,
  cancel_client_subs, serve_begin, serve_end, bind_waiter, client_send,
}
use bastion_hub.Hub.Invariant.{WellFormed, Waiters-lookup}
use bastion_hub.Hub.Cancel.{cancel_client_subs_exact}
use bastion_hub.Hub.Serve.{cancel_client_subs-keeps, clients-serve_begin, clients-serve_end}
use bastion_hub.Hub.Safety.{clients-send}

serve_end_other :
    (h : Hub) (node : Text) (c d : ℕ)
    → lookup node h.clients ≡ some d
    → c < d
    → serve_end h node c ≡ h
unfolding serve_end
serve_end_other h node c d e newer = rw (e, serve_end) (ground arith)

serve_end-removes :
    (h : Hub) (node : Text) (c : ℕ)
    → lookup node h.clients ≡ some c
    → lookup node (serve_end h node c).clients ≡ none
serve_end-removes h node c e =
    ap (lookup node) (clients-serve_end h node c)
    ∙ rw e (ground (arith, lookup-delete_self node h.clients))

serve_end-keeps :
    (h : Hub) (node : Text) (c : ℕ)
    → ((serve_end h node c).subs ≡ h.subs) × ((serve_end h node c).chans ≡ h.chans)
unfolding serve_end
serve_end-keeps h node c = ground arith

socket-serve_begin :
    (h : Hub) (node : Text) (c : ℕ)
    → lookup node h.clients ≡ some c
    → (serve_begin h node).0.socket_closed c ≡ true
unfolding serve_begin
socket-serve_begin h node c e = ground arith

-- What Send does to the waiter of its envelope.
send-binds :
    (h : Hub) (node : Text) (env : Envelope) (c : ℕ) (s : Sub)
    → text_eq env.id [] ≡ false
    → lookup node h.clients ≡ some c
    → lookup env.id h.subs ≡ some s
    → (lookup env.id (send h node env).0.subs ≡ some (record { client = some c; ch = s.ch }))
      × ((send h node env).0.chans ≡ h.chans)
unfolding send bind_waiter client_send
send-binds h node env c s named online_ waiting =
    ground (arith, lookup-insert_self env.id (record s { client = some c }) h.subs)

-- When a second connection of a node replaces the first, the first one's socket is closed, and its
-- end neither takes the node out of the hub nor calls OnDisconnect, also after its waiters were
-- cancelled.
pub replaced_connection_end :
    (h : Hub) (node : Text) (c : ℕ)
    → WellFormed h
    → lookup node h.clients ≡ some c
    → let begun = (serve_begin h node).0 in
      let done = serve_end (cancel_client_subs begun c) node c in
      (begun.socket_closed c ≡ true)
      × (lookup node done.clients ≡ some (serve_begin h node).1)
      × (done.events ≡ begun.events)
unfolding serve_begin
replaced_connection_end h node c v e = (
  socket-serve_begin h node c e,
  ap (λ (x : Hub). lookup node x.clients) kept ∙ current,
  ap (λ (x : Hub). x.events) kept ∙ (cancel_client_subs-keeps begun c).1,
)
  where
    begun : Hub
    begun = (serve_begin h node).0

    current : lookup node (cancel_client_subs begun c).clients ≡ some (serve_begin h node).1
    current =
        ap (lookup node) ((cancel_client_subs-keeps begun c).0 ∙ (clients-serve_begin h node).0)
        ∙ lookup-insert_self node h.next_client h.clients

    newer : c < h.next_client
    newer = All-lookup (λ x. x.1 < h.next_client) node {v = c} h.clients v.numbered e

    kept : serve_end (cancel_client_subs begun c) node c ≡ cancel_client_subs begun c
    kept = serve_end_other (cancel_client_subs begun c) node c h.next_client current newer

-- A Send that falls between cancelClientSubs and the removal of the dead connection from the client
-- map binds its waiter to that connection: afterwards the node is offline, and the waiter stays in the
-- map with its channel open, so that nothing but its timeout ends the request.
pub late_send_waits :
    (h : Hub) (node : Text) (env : Envelope) (c : ℕ) (s : Sub)
    → WellFormed h
    → lookup node h.clients ≡ some c
    → text_eq env.id [] ≡ false
    → lookup env.id h.subs ≡ some s
    → s.client ≡ none
    → let h' = serve_end (send (cancel_client_subs h c) node env).0 node c in
      (lookup node h'.clients ≡ none)
      × (lookup env.id h'.subs ≡ some (record { client = some c; ch = s.ch }))
      × ((h'.chans s.ch).closed ≡ false)
late_send_waits h node env c s v online_ named waiting unbound = (
  serve_end-removes sent node c (ap (lookup node) (clients-send g node env) ∙ still),
  ap (lookup env.id) (serve_end-keeps sent node c).0 ∙ bound.0,
  ap (λ (f : ℕ → Chan). (f s.ch).closed) ((serve_end-keeps sent node c).1 ∙ bound.1) ∙ untouched.1,
)
  where
    g : Hub
    g = cancel_client_subs h c

    sent : Hub
    sent = (send g node env).0

    still : lookup node g.clients ≡ some c
    still = ap (lookup node) (cancel_client_subs-keeps h c).0 ∙ online_

    untouched : (lookup env.id g.subs ≡ some s) × ((g.chans s.ch).closed ≡ false)
    untouched =
        let exact = cancel_client_subs_exact h c env.id s v waiting in
        ground (arith, exact, unbound)

    bound :
        (lookup env.id sent.subs ≡ some (record { client = some c; ch = s.ch }))
        × (sent.chans ≡ g.chans)
    bound = send-binds g node env c s named still untouched.0

-- route looks a waiter up under the lock and sends to its channel after the lock is released. If its
-- RequestOne unsubscribes in between, the send is to a closed channel, and the master panics.
pub late_route_panics :
    (h : Hub) (env : Envelope) (s : Sub)
    → WellFormed h
    → lookup env.id h.subs ≡ some s
    → (deliver (unsubscribe h env.id) s.ch env).panic ≡ some send_on_closed
unfolding unsubscribe close_chan deliver
late_route_panics h env s v e =
    let open_ = (Waiters-lookup h.chans h.next_ch env.id s h.subs v.waiters e).0 in
    rw (e, unsubscribe) (ground (arith, open_))
