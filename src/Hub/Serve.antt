-- ===== src/Hub/Serve.antt =====
-- ServeAgent: a connection's entry in the hub, from its acceptance to its end.
use bastion_hub.Prelude.{
  ℕ, suc, ◌<◌, ◌≡◌, refl, Bool, true, false, none, some, inl, inr, List, [], ◌∷◌, arith, Text, ◌∙◌,
  lookup, insert, delete, All, All-insert, All-delete, ◌==◌, if◌then◌else◌, Bool-cases,
  Option-cases, filter,
}
use bastion_hub.Hub.{
  Hub, Sub, Event, connect, disconnect, close_chan, cancel_all, cancel_client_subs, serve_begin,
  serve_end, fire, bound_to,
}
use bastion_hub.Hub.Invariant.{WellFormed}

close_chan-keeps :
    (h : Hub) (k : ℕ)
    → ((close_chan h k).clients ≡ h.clients)
      × ((close_chan h k).events ≡ h.events)
      × ((close_chan h k).next_client ≡ h.next_client)
      × ((close_chan h k).handlers ≡ h.handlers)
      × ((close_chan h k).outs ≡ h.outs)
unfolding close_chan
close_chan-keeps h k = elim (Bool-cases (h.chans k).closed) [
  | inl e ↦ rw e (refl, refl, refl, refl, refl)
  | inr e ↦ rw e (refl, refl, refl, refl, refl)
]

pub cancel_all-keeps :
    (h : Hub) (d : List (Text × Sub))
    → ((cancel_all h d).clients ≡ h.clients)
      × ((cancel_all h d).events ≡ h.events)
      × ((cancel_all h d).next_client ≡ h.next_client)
      × ((cancel_all h d).handlers ≡ h.handlers)
      × ((cancel_all h d).outs ≡ h.outs)
unfolding cancel_all
cancel_all-keeps h [] = (refl, refl, refl, refl, refl)
cancel_all-keeps h ((id, s) ∷ d) =
    let k = close_chan-keeps h s.ch in
    let later =
      cancel_all-keeps (record (close_chan h s.ch) { subs = delete id (close_chan h s.ch).subs })
        d in
    (later.0 ∙ k.0, later.1 ∙ k.1, later.2 ∙ k.2, later.3 ∙ k.3, later.4 ∙ k.4)

-- Cancelling waiters leaves the connections and the callbacks alone.
pub cancel_client_subs-keeps :
    (h : Hub) (c : ℕ)
    → ((cancel_client_subs h c).clients ≡ h.clients)
      × ((cancel_client_subs h c).events ≡ h.events)
      × ((cancel_client_subs h c).next_client ≡ h.next_client)
      × ((cancel_client_subs h c).handlers ≡ h.handlers)
      × ((cancel_client_subs h c).outs ≡ h.outs)
unfolding cancel_client_subs
cancel_client_subs-keeps h c = cancel_all-keeps h (filter (λ e. bound_to c e.1) h.subs)

All-numbered-suc : (n : ℕ) (m : List (Text × ℕ)) → All (λ e. e.1 < n) m → All (λ e. e.1 < suc n) m
All-numbered-suc n [] h = tt
All-numbered-suc n ((j, c) ∷ m) h = (omega arith, All-numbered-suc n m h.1)

pub clients-serve_begin :
    (h : Hub) (node : Text)
    → ((serve_begin h node).0.clients ≡ insert node h.next_client h.clients)
      × ((serve_begin h node).0.next_client ≡ suc h.next_client)
unfolding serve_begin
clients-serve_begin h node = ground arith

pub fire-WellFormed : (h : Hub) (set : Bool) (e : Event) → WellFormed h → WellFormed (fire h set e)
fire-WellFormed h true e v = record {
  waiters = v.waiters;
  no_double_close = v.no_double_close;
  numbered = v.numbered;
}
fire-WellFormed h false e v = v

pub serve_begin-WellFormed :
    (h : Hub) (node : Text) → WellFormed h → WellFormed (serve_begin h node).0
unfolding serve_begin
serve_begin-WellFormed h node v =
    fire-WellFormed _ h.handlers.on_connect (connect node)
      (record { waiters = v.waiters; no_double_close = v.no_double_close; numbered = numbered })
  where
    numbered : All (λ e. e.1 < suc h.next_client) (insert node h.next_client h.clients)
    numbered =
        All-insert (λ e. e.1 < suc h.next_client) node h.next_client h.clients (omega arith)
          (All-numbered-suc h.next_client h.clients v.numbered)

pub clients-serve_end :
    (h : Hub) (node : Text) (c : ℕ)
    → (serve_end h node c).clients ≡ (elim (lookup node h.clients) [
      | none ↦ h.clients
      | some d ↦ if d == c then delete node h.clients else h.clients
    ])
unfolding serve_end
clients-serve_end h node c = ground arith

pub serve_end-WellFormed :
    (h : Hub) (node : Text) (c : ℕ) → WellFormed h → WellFormed (serve_end h node c)
unfolding serve_end
serve_end-WellFormed h node c v = elim (Option-cases (lookup node h.clients)) [
  | inl e ↦ rw (e, serve_end) v
  | inr (d, e) ↦ elim (Bool-cases (d == c)) [
    | inr other ↦ rw (e, serve_end, other) v
    | inl same ↦
        rw (e, serve_end, same) (fire-WellFormed _ h.handlers.on_disconnect (disconnect node) gone)
  ]
]
  where
    gone : WellFormed (record h { clients = delete node h.clients })
    gone = record {
      waiters = v.waiters;
      no_double_close = v.no_double_close;
      numbered = All-delete (λ e. e.1 < h.next_client) node h.clients v.numbered;
    }
