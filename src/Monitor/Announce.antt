-- ===== src/Monitor/Announce.antt =====
-- Which containers a scan announces.
use bastion_hub.Prelude.{
  ◌≡◌, refl, ◌∙◌, Bool, false, ◌&&◌, ◌||◌, not, inl, inr, List, [], ◌∷◌, map, arith, Text, text_eq,
  text_eq_iff, insert, delete, any, filter, Bool-cases,
}
use bastion_hub.Monitor.{Container, BadEntry, is_bad, key, current, keys, member, fresh, scan}

-- Some container of the inventory is bad and has this key.
abbrev pub bad_key : Text → List Container → Bool
bad_key k cons = any (λ c. is_bad c && text_eq (key c) k) cons

member-delete :
    (k j : Text) (m : List (Text × BadEntry))
    → member k (keys (delete j m)) ≡ (member k (keys m) && not (text_eq j k))
unfolding delete
member-delete k j [] = refl
member-delete k j ((i, e) ∷ m) =
    ground (arith, member-delete k j m, text_eq_iff i j, text_eq_iff i k, text_eq_iff j k)

member-insert :
    (k j : Text) (e : BadEntry) (m : List (Text × BadEntry))
    → member k (keys (insert j e m)) ≡ (text_eq j k || member k (keys m))
unfolding insert
member-insert k j e m = ground (arith, member-delete k j m)

member-current :
    (node_name : Text → Text) (k : Text) (cons : List Container) (cur : List (Text × BadEntry))
    → member k (keys (current node_name cons cur)) ≡ (bad_key k cons || member k (keys cur))
unfolding current
member-current node_name k [] cur = refl
member-current node_name k (c ∷ cons) cur = elim (Bool-cases (is_bad c)) [
  | inl e ↦ rw (e, member-current node_name k cons) (rw member-insert (ground arith))
  | inr e ↦ rw (e, member-current node_name k cons cur) refl
]

fresh-filter :
    (notified : List Text) (p : Text → Bool) (cur : List (Text × BadEntry))
    → ((k : Text) → member k notified ≡ p k)
    → fresh notified cur ≡ map (λ e. e.1) (filter (λ e. not (p e.0)) cur)
unfolding fresh
fresh-filter notified p [] h = refl
fresh-filter notified p ((k, e) ∷ cur) h = ground (arith, h k, fresh-filter notified p cur h)

-- After a scan the known containers are exactly the bad ones of its inventory.
member-scan :
    (node_name : Text → Text) (cons : List Container) (notified : List Text) (k : Text)
    → member k (scan node_name cons notified).0 ≡ bad_key k cons
unfolding scan
member-scan node_name cons notified k =
    member-current node_name k cons [] ∙ or-false (bad_key k cons)
  where
    or-false : (b : Bool) → (b || false) ≡ b
    or-false b = ground arith

-- Of two scans in a row, the second announces exactly the containers that are bad in its inventory
-- and were not bad in the first one's, whatever was announced before: an outage is announced once,
-- and again after a recovery.
pub scan_announces_new :
    (node_name : Text → Text) (before after : List Container) (notified : List Text)
    → (scan node_name after (scan node_name before notified).0).1
      ≡ map (λ e. e.1) (filter (λ e. not (bad_key e.0 before)) (current node_name after []))
scan_announces_new node_name before after notified =
    fresh_of after (scan node_name before notified).0
    ∙ fresh-filter (scan node_name before notified).0 (λ k. bad_key k before)
        (current node_name after []) (member-scan node_name before notified)
  where
    fresh_of :
        (cons : List Container) (known : List Text)
        → (scan node_name cons known).1 ≡ fresh known (current node_name cons [])
    fresh_of cons known = unfold scan in refl
