-- ===== src/Hub/Invariant.antt =====
-- What every operation of the hub keeps: each waiter's channel is open, was handed out by Subscribe,
-- and is no other waiter's; each key stands once; no channel is closed twice.
use bastion_hub.Prelude.{
  text_eq_sound, ltb, length, ℕ, suc, ◌<◌, ◌≡◌, ◌≢◌, true, false, none, some, inl, inr, List, [],
  ◌∷◌, arith, Text, text_eq, text_eq_iff, lookup, insert, delete, All, All-delete, All-lookup,
  Option-cases, Bool-cases,
}
use bastion_hub.Hub.{
  Hub, Sub, Chan, Envelope, close_of_closed, update, empty_chan, send, bind_waiter, client_send,
  buffer, subscribe, unsubscribe, close_chan,
}

-- Two waiters differ in their key and in their channel.
abbrev pub Apart : Text → Sub → Text × Sub → Type 0
Apart id s e = (text_eq id e.0 ≡ false) × (e.1.ch ≢ s.ch)

abbrev pub Waiters : (ℕ → Chan) → ℕ → List (Text × Sub) → Type 0
Waiters chans n [] = Unit
Waiters chans n ((id, s) ∷ m) =
    ((chans s.ch).closed ≡ false) × (s.ch < n) × All (Apart id s) m × Waiters chans n m

pub record WellFormed (h : Hub) : Type 0 where
  pub waiters : Waiters h.chans h.next_ch h.subs
  pub no_double_close : h.panic ≢ some close_of_closed
  pub numbered : All (λ e. e.1 < h.next_client) h.clients

pub Waiters-delete :
    (chans : ℕ → Chan) (n : ℕ) (k : Text) (m : List (Text × Sub))
    → Waiters chans n m
    → Waiters chans n (delete k m)
unfolding delete
Waiters-delete chans n k [] w = tt
Waiters-delete chans n k ((id, s) ∷ m) w =
    ground (arith, Waiters-delete chans n k m w.3, All-delete (Apart id s) k m w.2)

-- What a lookup says of the waiter found.
pub Waiters-lookup :
    (chans : ℕ → Chan) (n : ℕ) (k : Text) (s : Sub) (m : List (Text × Sub))
    → Waiters chans n m
    → lookup k m ≡ some s
    → ((chans s.ch).closed ≡ false) × (s.ch < n)
unfolding lookup
Waiters-lookup chans n k s [] w e = cc
Waiters-lookup chans n k s ((id, t) ∷ m) w e = ground (arith, Waiters-lookup chans n k s m w.3)

All-Apart-moved :
    (id k : Text) (t s : Sub) (m : List (Text × Sub))
    → id ≡ k
    → t ≡ s
    → All (Apart id t) m
    → All (Apart k s) (delete k m)
All-Apart-moved id k t s m p q h = rw (← p, ← q) (All-delete (Apart id t) id m h)

-- The waiter found stands apart from all that are left once its key is deleted.
pub Waiters-Apart :
    (chans : ℕ → Chan) (n : ℕ) (k : Text) (s : Sub) (m : List (Text × Sub))
    → Waiters chans n m
    → lookup k m ≡ some s
    → All (Apart k s) (delete k m)
unfolding lookup delete
Waiters-Apart chans n k s [] w e = cc
Waiters-Apart chans n k s ((id, t) ∷ m) w e = elim (Bool-cases (text_eq id k)) [
  | inl hit ↦ rw hit (All-Apart-moved id k t s m (text_eq_sound id k hit) (found hit) w.2)
  | inr miss ↦
      let later : lookup k m ≡ some s = rw miss at e in
      let apart : Apart id t (k, s) = All-lookup (Apart id t) k m w.2 later in
      rw miss (
        ground
          (arith, text_eq_iff id k, text_eq_iff k id, apart, Waiters-Apart chans n k s m w.3 later))
]
  where
    found : text_eq id k ≡ true → t ≡ s
    found hit = ground arith

All-ch-lt :
    (chans : ℕ → Chan) (n : ℕ) (m : List (Text × Sub)) → Waiters chans n m → All (λ e. e.1.ch < n) m
All-ch-lt chans n [] w = tt
All-ch-lt chans n ((id, s) ∷ m) w = (w.1, All-ch-lt chans n m w.3)

-- A write to a channel that no waiter has.
pub Waiters-update :
    (chans : ℕ → Chan) (n k : ℕ) (c : Chan) (m : List (Text × Sub))
    → Waiters chans n m
    → All (λ e. e.1.ch ≢ k) m
    → Waiters (update chans k c) n m
Waiters-update chans n k c [] w h = tt
Waiters-update chans n k c ((id, s) ∷ m) w h = ground (arith, Waiters-update chans n k c m w.3 h.1)

-- A write that leaves the channel open.
pub Waiters-touch :
    (chans : ℕ → Chan) (n k : ℕ) (c : Chan) (m : List (Text × Sub))
    → Waiters chans n m
    → c.closed ≡ false
    → Waiters (update chans k c) n m
Waiters-touch chans n k c [] w h = tt
Waiters-touch chans n k c ((id, s) ∷ m) w h = ground (arith, Waiters-touch chans n k c m w.3 h)

Waiters-grow :
    (chans : ℕ → Chan) (n : ℕ) (m : List (Text × Sub)) → Waiters chans n m → Waiters chans (suc n) m
Waiters-grow chans n [] w = tt
Waiters-grow chans n ((id, s) ∷ m) w = (w.0, omega arith, w.2, Waiters-grow chans n m w.3)

All-ne :
    (chans : ℕ → Chan) (n : ℕ) (m : List (Text × Sub)) → Waiters chans n m → All (λ e. e.1.ch ≢ n) m
All-ne chans n [] w = tt
All-ne chans n ((id, s) ∷ m) w = (ground arith, All-ne chans n m w.3)

All-key-delete :
    (id : Text) (s : Sub) (m : List (Text × Sub))
    → All (λ e. e.1.ch ≢ s.ch) m
    → All (Apart id s) (delete id m)
unfolding delete
All-key-delete id s [] h = tt
All-key-delete id s ((j, t) ∷ m) h =
    ground (arith, All-key-delete id s m h.1, text_eq_iff id j, text_eq_iff j id)

pub All-ch-ne :
    (id : Text) (s : Sub) (m : List (Text × Sub)) → All (Apart id s) m → All (λ e. e.1.ch ≢ s.ch) m
All-ch-ne id s [] h = tt
All-ch-ne id s ((j, t) ∷ m) h = (h.0.1, All-ch-ne id s m h.1)

pub subscribe-WellFormed : (h : Hub) (id : Text) → WellFormed h → WellFormed (subscribe h id).0
unfolding subscribe insert
subscribe-WellFormed h id v = record {
  waiters = (
    ground arith,
    omega arith,
    All-key-delete id (record { client = none; ch = h.next_ch }) h.subs
        (All-ne h.chans h.next_ch h.subs v.waiters),
    Waiters-update h.chans (suc h.next_ch) h.next_ch empty_chan (delete id h.subs)
        (Waiters-grow h.chans h.next_ch _ (Waiters-delete h.chans h.next_ch id h.subs v.waiters))
        (All-delete _ id h.subs (All-ne h.chans h.next_ch h.subs v.waiters)),
  );
  no_double_close = v.no_double_close;
  numbered = v.numbered;
}

bind_waiter-WellFormed :
    (h : Hub) (env : Envelope) (c : ℕ) → WellFormed h → WellFormed (bind_waiter h env c)
unfolding bind_waiter insert
bind_waiter-WellFormed h env c v = elim (Bool-cases (text_eq env.id [])) [
  | inl anonymous ↦ rw anonymous v
  | inr named ↦ elim (Option-cases (lookup env.id h.subs)) [
    | inl e ↦ rw (named, e) v
    | inr (s, e) ↦
        let found = Waiters-lookup h.chans h.next_ch env.id s h.subs v.waiters e in
        rw (named, e)
          (record {
            waiters = (
              found.0,
              found.1,
              Waiters-Apart h.chans h.next_ch env.id s h.subs v.waiters e,
              Waiters-delete h.chans h.next_ch env.id h.subs v.waiters,
            );
            no_double_close = v.no_double_close;
            numbered = v.numbered;
          })
  ]
]

client_send-WellFormed :
    (h : Hub) (c : ℕ) (env : Envelope) → WellFormed h → WellFormed (client_send h c env).0
unfolding client_send
client_send-WellFormed h c env v = elim (Bool-cases (ltb (length (h.outs c)) buffer)) [
  | inl room ↦
      rw room
        (record { waiters = v.waiters; no_double_close = v.no_double_close; numbered = v.numbered })
  | inr full ↦ rw full v
]

pub send-WellFormed :
    (h : Hub) (node : Text) (env : Envelope) → WellFormed h → WellFormed (send h node env).0
unfolding send
send-WellFormed h node env v = elim (Option-cases (lookup node h.clients)) [
  | inl e ↦ rw (e, send) v
  | inr (c, e) ↦ rw (e, send) (client_send-WellFormed _ c env (bind_waiter-WellFormed h env c v))
]

-- Closing the channel of a waiter that has been taken out.
close_chan-WellFormed :
    (h : Hub) (k : ℕ)
    → WellFormed h
    → (h.chans k).closed ≡ false
    → All (λ e. e.1.ch ≢ k) h.subs
    → WellFormed (close_chan h k)
unfolding close_chan
close_chan-WellFormed h k v open_ apart = rw open_ (record {
  waiters = Waiters-update h.chans h.next_ch k _ h.subs v.waiters apart;
  no_double_close = v.no_double_close;
  numbered = v.numbered;
})

-- One waiter is taken out of the map and its channel closed.
pub remove-WellFormed :
    (h : Hub) (id : Text) (s : Sub)
    → WellFormed h
    → lookup id h.subs ≡ some s
    → WellFormed (close_chan (record h { subs = delete id h.subs }) s.ch)
remove-WellFormed h id s v e =
    close_chan-WellFormed (record h { subs = delete id h.subs }) s.ch
      (record {
        waiters = Waiters-delete h.chans h.next_ch id h.subs v.waiters;
        no_double_close = v.no_double_close;
        numbered = v.numbered;
      })
      (Waiters-lookup h.chans h.next_ch id s h.subs v.waiters e).0
      (All-ch-ne id s _ (Waiters-Apart h.chans h.next_ch id s h.subs v.waiters e))

pub unsubscribe-WellFormed : (h : Hub) (id : Text) → WellFormed h → WellFormed (unsubscribe h id)
unfolding unsubscribe
unsubscribe-WellFormed h id v = elim (Option-cases (lookup id h.subs)) [
  | inl e ↦ rw (e, unsubscribe) v
  | inr (s, e) ↦ rw (e, unsubscribe) (remove-WellFormed h id s v e)
]
