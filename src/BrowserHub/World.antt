-- ===== src/BrowserHub/World.antt =====
-- The steps of the hub in any order, and the send on a closed channel.
use bastion_hub.Prelude.{
  ℕ, suc, ◌≡◌, refl, arith, Bool, true, false, not, List, [], ◌∷◌, Text, ◌==◌, some, any, filter,
}
use bastion_hub.BrowserHub.{
  Client, Hub, update_client, find_client, serve_browser, unregister, close_send, copy_clients,
  offer, send_one, send_nth, send_next, pump,
}

abbrev pub is_registered : ℕ → Hub → Bool
is_registered id h = any (λ j. j == id) h.registered

-- What the goroutines of the process do, in any order. ServeBrowser takes its client out of the map
-- once, and closes the client's channel once and after that.
pub data Step : Hub → Hub → Type 0 where
  joins : (h : Hub) → h.panicked ≡ false → Step h (serve_browser h)
  leaves :
      (h : Hub) (id : ℕ) → h.panicked ≡ false → is_registered id h ≡ true → Step h (unregister id h)
  closes :
      (h : Hub) (id : ℕ) (c : Client)
      → h.panicked ≡ false
      → is_registered id h ≡ false
      → find_client id h.all_clients ≡ some c
      → c.closed ≡ false
      → Step h (close_send id h)
  copies : (h : Hub) (msg : Text) → h.panicked ≡ false → Step h (copy_clients msg h)
  sends : (h : Hub) (i : ℕ) → h.panicked ≡ false → Step h (send_next i h)
  pumps : (h : Hub) (id : ℕ) → h.panicked ≡ false → Step h (pump id h)

pub data Steps : Hub → Hub → Type 0 where
  done : (h : Hub) → Steps h h
  next : (h j k : Hub) → Step h j → Steps j k → Steps h k

not_registered :
    (id : ℕ) (ids : List ℕ) → any (λ j. j == id) (filter (λ j. not (j == id)) ids) ≡ false
not_registered id [] = refl
not_registered id (j ∷ ids) = ground (arith, not_registered id ids)

-- A browser joins, a call of Broadcast copies the clients, and the browser leaves: its ServeBrowser
-- takes it out of the map.
abbrev pub left_hub : Hub → Text → Hub
left_hub h msg = unregister (suc h.next_id) (copy_clients msg (serve_browser h))

-- From every state in which the process still runs: a browser joins, a call of Broadcast copies the
-- clients, the browser is taken out of the map and its channel is closed, and the call sends. These
-- are steps of the process, and end it: the send is to a closed channel. If the call sends before the
-- channel is closed, the process goes on.
pub broadcast_can_panic :
    (h : Hub) (msg : Text)
    → h.panicked ≡ false
    → Steps h (send_next 0 (close_send (suc h.next_id) (left_hub h msg)))
      × ((send_next 0 (close_send (suc h.next_id) (left_hub h msg))).panicked ≡ true)
      × ((send_next 0 (left_hub h msg)).panicked ≡ false)
unfolding serve_browser unregister close_send copy_clients send_next send_nth send_one offer
    find_client update_client
broadcast_can_panic h msg ok =
    let id = suc h.next_id in
    let c : Client = record { id = id; queue = []; closed = false } in
    let h1 = serve_browser h in
    let h2 = copy_clients msg h1 in
    let h3 = left_hub h msg in
    let h4 = close_send id h3 in
    (
      next h h1 _ (joins h ok) (
          next h1 h2 _ (copies h1 msg ok) (
            next h2 h3 _ (leaves h2 id ok (rw same refl)) (
              next h3 h4 _
                (closes h3 id c ok (not_registered id (id ∷ h.registered)) (rw same refl) refl)
                (next h4 _ _ (sends h4 0 ok) (done _))))),
      rw (same, same) refl,
      rw same refl,
    )
  where
    same : (suc h.next_id == suc h.next_id) ≡ true
    same = ground arith
