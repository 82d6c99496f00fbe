-- ===== src/BrowserHub/Tests.antt =====
-- A hub that two browsers join, and a message for them.
use bastion_hub.Prelude.{suc, ◌≡◌, refl, true, false, [], ◌∷◌, codes, map}
use bastion_hub.BrowserHub.{Hub, new_hub, serve_browser, copy_clients, close_send, send_next}
use bastion_hub.BrowserHub.World.{Steps, left_hub, broadcast_can_panic}

abbrev joined : Hub
joined = serve_browser (serve_browser new_hub)

-- One turn of the call reaches one of the two.
reaches_one :
    map (λ c. c.queue) (send_next 0 (copy_clients (codes "m") joined)).all_clients
    ≡ (codes "m" ∷ []) ∷ [] ∷ []
unfolding send_next copy_clients serve_browser
reaches_one = refl

broadcast_can_panic_example :
    Steps joined (send_next 0 (close_send (suc joined.next_id) (left_hub joined (codes "m"))))
    × ((send_next 0 (close_send (suc joined.next_id) (left_hub joined (codes "m")))).panicked
        ≡ true)
    × ((send_next 0 (left_hub joined (codes "m"))).panicked ≡ false)
unfolding serve_browser
broadcast_can_panic_example = broadcast_can_panic joined (codes "m") refl
