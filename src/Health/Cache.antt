-- ===== src/Health/Cache.antt =====
-- master/internal/health/cache.go: the latest sample and the rolling history of each node.
use native.Mathlib.Nat.{zero-add, suc-add}
use bastion_hub.Prelude.{
  ℕ, zero, suc, append-nil, append_assoc, ◌+◌, ◌-◌, ◌≤◌, ◌≡◌, refl, ap, sym, ◌∙◌, false, Option,
  none, some, inl, inr, List, [], ◌∷◌, ◌++◌, arith, Text, text_eq, filter, length, drop, leb, ltb,
  if◌then◌else◌, lookup, insert, delete, lookup-insert, lookup-insert_self, length-append,
  length-drop, Bool-cases, Option-cases,
}

abbrev pub max_history : ℕ
max_history = 240

-- nodeCache; a node with an entry has data. `S` is the type of samples.
pub record NodeCache (S : Type 0) : Type 0 where
  pub latest : S
  pub history : List S

abbrev pub Cache : Type 0 → Type 0
Cache S = List (Text × NodeCache S)

module _ {S : Type 0} where
  -- Put: the sample is appended, and the oldest beyond the bound are cut off.
  pub trim : List S → List S
  trim history =
      if ltb max_history (length history)
      then drop (length history - max_history) history
      else history

  pub put : Cache S → Text → S → Cache S
  unfolding trim
  put c node s = elim (lookup node c) [
    | none ↦ insert node (record { latest = s; history = trim ([] ++ s ∷ []) }) c
    | some nc ↦ insert node (record { latest = s; history = trim (nc.history ++ s ∷ []) }) c
  ]

  pub latest : Cache S → Text → Option S
  latest c node = elim (lookup node c) [ none ↦ none | some nc ↦ some nc.latest ]

  -- Delete
  pub drop_node : Cache S → Text → Cache S
  drop_node c node = delete node c

  pub history : (S → ℕ) → Cache S → Text → ℕ → List S
  history ts c node since = elim (lookup node c) [
    | none ↦ []
    | some nc ↦ filter (λ s. leb since (ts s)) nc.history
  ]

  -- A series of samples of one node.
  pub put_all : Cache S → Text → List S → Cache S
  put_all c node [] = c
  put_all c node (s ∷ samples) = put_all (put c node s) node samples

  abbrev history_of : Option (NodeCache S) → List S
  history_of none = []
  history_of (some nc) = nc.history

  abbrev stored : Cache S → Text → List S
  stored c node = history_of (lookup node c)

  -- The last `max_history` items.
  abbrev last_ones : List S → List S
  last_ones xs = drop (length xs - max_history) xs

  stored-put :
      (c : Cache S) (node : Text) (s : S)
      → stored (put c node s) node ≡ trim (stored c node ++ s ∷ [])
  unfolding put
  stored-put c node s = ground (
    arith,
    lookup-insert_self node (record { latest = s; history = trim ([] ++ s ∷ []) }) c,
    lookup-insert_self node (record { latest = s; history = trim (stored c node ++ s ∷ []) }) c,
  )

  trim-last_ones : (xs : List S) → trim xs ≡ last_ones xs
  unfolding trim
  trim-last_ones xs = elim (Bool-cases (ltb max_history (length xs))) [
    | inl long ↦ rw long refl
    | inr short ↦
        let none_over : length xs - max_history ≡ 0 = ground arith in rw (short, none_over) refl
  ]

  drop-nil : (n : ℕ) → drop {A = S} n [] ≡ []
  drop-nil zero = refl
  drop-nil (suc n) = refl

  drop-drop : (m n : ℕ) (xs : List S) → drop m (drop n xs) ≡ drop (n + m) xs
  drop-drop m zero xs = rw zero-add refl
  drop-drop m (suc n) [] = drop-nil m ∙ sym (drop-nil (suc n + m))
  drop-drop m (suc n) (x ∷ xs) = rw suc-add (drop-drop m n xs)

  drop-append : (n : ℕ) (xs ys : List S) → n ≤ length xs → drop n xs ++ ys ≡ drop n (xs ++ ys)
  drop-append zero xs ys h = refl
  drop-append (suc n) [] ys h = absurd (omega arith)
  drop-append (suc n) (x ∷ xs) ys h = drop-append n xs ys (omega arith)

  last_ones-append : (xs ys : List S) → last_ones (last_ones xs ++ ys) ≡ last_ones (xs ++ ys)
  last_ones-append xs ys =
      let k = length xs - max_history in
      rw (drop-append k xs ys (omega arith), drop-drop _ k (xs ++ ys))
        (ap (λ n. drop n (xs ++ ys)) (omega (arith, length-drop k (xs ++ ys), length-append xs ys)))

  length-last_ones : (xs : List S) → length (last_ones xs) ≤ max_history
  length-last_ones xs = omega (arith, length-drop (length xs - max_history) xs)

  stored-put_all :
      (c : Cache S) (node : Text) (samples : List S)
      → length (stored c node) ≤ max_history
      → stored (put_all c node samples) node ≡ last_ones (stored c node ++ samples)
  unfolding put_all
  stored-put_all c node [] h =
      let whole : length (stored c node) - max_history ≡ 0 = omega arith in
      rw (append-nil (stored c node)) (sym (ap (λ k. drop k (stored c node)) whole))
  stored-put_all c node (s ∷ samples) h =
      let first = stored-put c node s ∙ trim-last_ones (stored c node ++ s ∷ []) in
      stored-put_all (put c node s) node samples
        (rw first (length-last_ones (stored c node ++ s ∷ [])))
      ∙ ap (λ xs. last_ones (xs ++ samples)) first
      ∙ last_ones-append (stored c node ++ s ∷ []) samples
      ∙ ap last_ones (append_assoc (stored c node) (s ∷ []) samples)

  lookup-put_other :
      (c : Cache S) (node other : Text) (s : S)
      → text_eq node other ≡ false
      → lookup other (put c node s) ≡ lookup other c
  unfolding put
  lookup-put_other c node other s e = elim (Option-cases (lookup node c)) [
    | inl f ↦ rw (f, put) (rw (lookup-insert, e) refl)
    | inr (nc, f) ↦ rw (f, put) (rw (lookup-insert, e) refl)
  ]

  lookup-put_all_other :
      (c : Cache S) (node other : Text) (samples : List S)
      → text_eq node other ≡ false
      → lookup other (put_all c node samples) ≡ lookup other c
  unfolding put_all
  lookup-put_all_other c node other [] e = refl
  lookup-put_all_other c node other (s ∷ samples) e =
      lookup-put_all_other (put c node s) node other samples e ∙ lookup-put_other c node other s e

  history-stored :
      (ts : S → ℕ) (c : Cache S) (node : Text) (since : ℕ)
      → history ts c node since ≡ filter (λ s. leb since (ts s)) (stored c node)
  unfolding history
  history-stored ts c node since = ground arith

  -- After any series of samples for a node that has no entry, its history is the last 240 of them in
  -- their order, cut down to those from the asked time on; what the cache has of another node is
  -- unchanged.
  pub history-put_all :
      (ts : S → ℕ) (c : Cache S) (node other : Text) (samples : List S) (since : ℕ)
      → lookup node c ≡ none
      → text_eq node other ≡ false
      → (history ts (put_all c node samples) node since
          ≡ filter (λ s. leb since (ts s)) (drop (length samples - max_history) samples))
        × (history ts (put_all c node samples) other since ≡ history ts c other since)
  history-put_all ts c node other samples since new apart =
      let empty : stored c node ≡ [] = ap history_of new in
      (
        history-stored ts (put_all c node samples) node since
            ∙ ap (filter (λ s. leb since (ts s))) (
                stored-put_all c node samples (rw empty (omega arith))
                ∙ ap (λ xs. last_ones (xs ++ samples)) empty),
        history-stored ts (put_all c node samples) other since
            ∙ ap (filter (λ s. leb since (ts s)))
                (ap history_of (lookup-put_all_other c node other samples apart))
            ∙ sym (history-stored ts c other since),
      )
