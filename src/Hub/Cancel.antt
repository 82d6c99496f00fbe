-- ===== src/Hub/Cancel.antt =====
-- cancelClientSubs: which waiters it closes, and that it closes each of them once.
use bastion_hub.Prelude.{
  ℕ, ◌≡◌, refl, Bool, true, false, ◌||◌, none, some, inl, inr, List, [], ◌∷◌, arith, Text, text_eq,
  text_eq_iff, text_eq_sound, All-lookup, text_eq_refl, lookup, delete, lookup-delete, filter, any,
  All, ◌==◌, if◌then◌else◌, Bool-cases,
}
use bastion_hub.Hub.{Hub, Sub, Chan, close_chan, cancel_all, cancel_client_subs, bound_to}
use bastion_hub.Hub.Invariant.{
  Apart, Waiters, WellFormed, Waiters-lookup, remove-WellFormed, Waiters-update, All-ch-ne,
}

-- The hub once a waiter is deleted and its channel closed.
abbrev dropped : Hub → Text → Sub → Hub
dropped h id s = close_chan (record h { subs = delete id h.subs }) s.ch

close_chan-delete :
    (h : Hub) (k : ℕ) (id : Text)
    → record (close_chan h k) { subs = delete id (close_chan h k).subs }
      ≡ close_chan (record h { subs = delete id h.subs }) k
unfolding close_chan
close_chan-delete h k id = elim (Bool-cases (h.chans k).closed) [
  | inl e ↦ rw e refl
  | inr e ↦ rw e refl
]

cancel_all-cons :
    (h : Hub) (id : Text) (s : Sub) (d : List (Text × Sub))
    → cancel_all h ((id, s) ∷ d) ≡ cancel_all (dropped h id s) d
unfolding cancel_all
cancel_all-cons h id s d = rw (close_chan-delete h s.ch id)

abbrev IsHeld : List (Text × Sub) → Text × Sub → Type 0
IsHeld m e = lookup e.0 m ≡ some e.1

IsHeld-delete :
    (id : Text) (s : Sub) (m d : List (Text × Sub))
    → All (Apart id s) d
    → All (IsHeld m) d
    → All (IsHeld (delete id m)) d
IsHeld-delete id s m [] a h = tt
IsHeld-delete id s m ((j, t) ∷ d) a h =
    (rw (lookup-delete id j m) (rw a.0.0 h.0), IsHeld-delete id s m d a.1 h.1)

Waiters-dropped :
    (h : Hub) (id : Text) (s : Sub) (d : List (Text × Sub))
    → (h.chans s.ch).closed ≡ false
    → All (Apart id s) d
    → Waiters h.chans h.next_ch d
    → Waiters (dropped h id s).chans (dropped h id s).next_ch d
unfolding close_chan
Waiters-dropped h id s d open_ a w =
    rw open_ (Waiters-update h.chans h.next_ch s.ch _ d w (All-ch-ne id s d a))

subs-dropped : (h : Hub) (id : Text) (s : Sub) → (dropped h id s).subs ≡ delete id h.subs
unfolding close_chan
subs-dropped h id s = elim (Bool-cases (h.chans s.ch).closed) [
  | inl e ↦ rw e refl
  | inr e ↦ rw e refl
]

cancel_all-WellFormed :
    (h : Hub) (d : List (Text × Sub))
    → WellFormed h
    → Waiters h.chans h.next_ch d
    → All (IsHeld h.subs) d
    → WellFormed (cancel_all h d)
cancel_all-WellFormed h [] v w held = unfold cancel_all in v
cancel_all-WellFormed h ((id, s) ∷ d) v w held = rw (cancel_all-cons h id s d) (
    cancel_all-WellFormed (dropped h id s) d (remove-WellFormed h id s v held.0)
      (Waiters-dropped h id s d w.0 w.2 w.3)
      (rw (subs-dropped h id s) (IsHeld-delete id s h.subs d w.2 held.1)))

lookup-cancel_all :
    (h : Hub) (d : List (Text × Sub)) (j : Text)
    → lookup j (cancel_all h d).subs
      ≡ (if any (λ e. text_eq e.0 j) d then none else lookup j h.subs)
lookup-cancel_all h [] j = unfold cancel_all in refl
lookup-cancel_all h ((id, s) ∷ d) j =
    rw
      (
        cancel_all-cons h id s d,
        lookup-cancel_all (dropped h id s) d j,
        subs-dropped h id s,
        lookup-delete id j h.subs,
      )
      (ground arith)

closed-dropped :
    (h : Hub) (id : Text) (s : Sub) (k : ℕ)
    → ((dropped h id s).chans k).closed ≡ ((h.chans k).closed || s.ch == k)
unfolding close_chan
closed-dropped h id s k = ground arith

closed-cancel_all :
    (h : Hub) (d : List (Text × Sub)) (k : ℕ)
    → ((cancel_all h d).chans k).closed ≡ ((h.chans k).closed || any (λ e. e.1.ch == k) d)
closed-cancel_all h [] k = unfold cancel_all in ground arith
closed-cancel_all h ((id, s) ∷ d) k =
    rw (cancel_all-cons h id s d, closed-cancel_all (dropped h id s) d k, closed-dropped h id s k)
      (ground arith)

queue-dropped :
    (h : Hub) (id : Text) (s : Sub) (k : ℕ) → ((dropped h id s).chans k).queue ≡ (h.chans k).queue
unfolding close_chan
queue-dropped h id s k = ground arith

queue-cancel_all :
    (h : Hub) (d : List (Text × Sub)) (k : ℕ) → ((cancel_all h d).chans k).queue ≡ (h.chans k).queue
queue-cancel_all h [] k = unfold cancel_all in refl
queue-cancel_all h ((id, s) ∷ d) k =
    rw (cancel_all-cons h id s d, queue-cancel_all (dropped h id s) d k) (queue-dropped h id s k)

-- Messages that wait in a channel stay there.
pub queue-cancel_client_subs :
    (h : Hub) (c k : ℕ) → ((cancel_client_subs h c).chans k).queue ≡ (h.chans k).queue
unfolding cancel_client_subs
queue-cancel_client_subs h c k = queue-cancel_all h (filter (λ e. bound_to c e.1) h.subs) k

module _ (p : Text × Sub → Bool) where
  All-filter {ℓ} : (P : Text × Sub → Type ℓ) (m : List (Text × Sub)) → All P m → All P (filter p m)
  All-filter P [] h = tt
  All-filter P (e ∷ m) h = ground (arith, All-filter P m h.1)

  Waiters-filter :
      (chans : ℕ → Chan) (n : ℕ) (m : List (Text × Sub))
      → Waiters chans n m
      → Waiters chans n (filter p m)
  Waiters-filter chans n [] w = tt
  Waiters-filter chans n ((id, s) ∷ m) w =
      ground (arith, Waiters-filter chans n m w.3, All-filter (Apart id s) m w.2)

  absent-filter :
      (id : Text) (s : Sub) (m : List (Text × Sub))
      → All (Apart id s) m
      → (any (λ e. text_eq e.0 id) (filter p m) ≡ false)
        × (any (λ e. e.1.ch == s.ch) (filter p m) ≡ false)
  absent-filter id s [] a = (refl, refl)
  absent-filter id s ((j, t) ∷ m) a =
      ground (arith, absent-filter id s m a.1, text_eq_iff id j, text_eq_iff j id)

  -- The waiter of a key is picked by the filter exactly when it passes the test.
  any-filter :
      (chans : ℕ → Chan) (n : ℕ) (j : Text) (s : Sub) (m : List (Text × Sub))
      → Waiters chans n m
      → lookup j m ≡ some s
      → (any (λ e. text_eq e.0 j) (filter p m) ≡ p (j, s))
        × (any (λ e. e.1.ch == s.ch) (filter p m) ≡ p (j, s))
  unfolding lookup
  any-filter chans n j s [] w e = cc
  any-filter chans n j s ((id, t) ∷ m) w e = elim (Bool-cases (text_eq id j)) [
    | inl hit ↦
        rw (← text_eq_sound id j hit, ← found hit)
          (ground (arith, absent-filter id t m w.2, text_eq_refl id))
    | inr miss ↦
        let later : lookup j m ≡ some s = rw miss at e in
        let apart : Apart id t (j, s) = All-lookup (Apart id t) j m w.2 later in
        ground (arith, miss, apart, any-filter chans n j s m w.3 later)
  ]
    where
      found : text_eq id j ≡ true → t ≡ s
      found hit = ground arith

IsHeld-tail :
    (id : Text) (s : Sub) (m d : List (Text × Sub))
    → All (Apart id s) d
    → All (IsHeld m) d
    → All (IsHeld ((id, s) ∷ m)) d
unfolding lookup
IsHeld-tail id s m [] a h = tt
IsHeld-tail id s m ((j, t) ∷ d) a h = (rw a.0.0 h.0, IsHeld-tail id s m d a.1 h.1)

IsHeld-self :
    (chans : ℕ → Chan) (n : ℕ) (m : List (Text × Sub)) → Waiters chans n m → All (IsHeld m) m
IsHeld-self chans n [] w = tt
IsHeld-self chans n ((id, s) ∷ m) w = (
  unfold lookup in rw (text_eq_refl id) refl,
  IsHeld-tail id s m m w.2 (IsHeld-self chans n m w.3),
)

pub cancel_client_subs-WellFormed :
    (h : Hub) (c : ℕ) → WellFormed h → WellFormed (cancel_client_subs h c)
unfolding cancel_client_subs
cancel_client_subs-WellFormed h c v =
    cancel_all-WellFormed h _ v (Waiters-filter _ h.chans h.next_ch h.subs v.waiters)
      (All-filter _ (IsHeld h.subs) h.subs (IsHeld-self h.chans h.next_ch h.subs v.waiters))

-- When a connection ends, a waiter bound to it is deleted and its channel closed, so that its
-- RequestOne answers at once; every other waiter stays in the map with its channel open.
pub cancel_client_subs_exact :
    (h : Hub) (c : ℕ) (j : Text) (s : Sub)
    → WellFormed h
    → lookup j h.subs ≡ some s
    → (lookup j (cancel_client_subs h c).subs ≡ (if bound_to c s then none else some s))
      × (((cancel_client_subs h c).chans s.ch).closed ≡ bound_to c s)
unfolding cancel_client_subs
cancel_client_subs_exact h c j s v e =
    let picked = any-filter (λ x. bound_to c x.1) h.chans h.next_ch j s h.subs v.waiters e in
    (
      rw (lookup-cancel_all h (filter (λ x. bound_to c x.1) h.subs) j, picked.0, e) refl,
      rw
          (
            closed-cancel_all h (filter (λ x. bound_to c x.1) h.subs) s.ch,
            picked.1,
            (Waiters-lookup h.chans h.next_ch j s h.subs v.waiters e).0,
          )
          refl,
    )
