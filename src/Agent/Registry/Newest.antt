-- ===== src/Agent/Registry/Newest.antt =====
-- The loop over the tags finds a highest version.
use bastion_hub.Prelude.{
  ◌≡◌, refl, sym, true, false, Option, none, some, ◌⊎◌, inl, inr, List, [], ◌∷◌, ◌++◌, append-nil,
  append_assoc, arith, Text, All, All-append, Option-cases, if_known,
}
use bastion_hub.Agent.Registry.{
  Semver, less, better, pick, parse_semver_tag, highest_semver_tag, raw_of,
}
use bastion_hub.Agent.Registry.Order.{less_irrefl, less_trans}

-- The versions of the tags that are not passed over, in their order.
pub versions_of : (Text → Option Semver) → List Text → List Semver
versions_of version [] = []
versions_of version (t ∷ tags) = elim (version t) [
  | none ↦ versions_of version tags
  | some sv ↦ sv ∷ versions_of version tags
]

abbrev pub Among : Semver → List Semver → Type 0
Among b [] = ⊥
Among b (sv ∷ svs) = (b ≡ sv) ⊎ Among b svs

-- The choice is one of the versions, and none of them is above it; there is none only of no versions.
abbrev pub IsHighest : Option Semver → List Semver → Type 0
IsHighest none svs = svs ≡ []
IsHighest (some b) svs = Among b svs × All (λ sv. less b sv ≡ false) svs

Among-append : (b : Semver) (xs ys : List Semver) → Among b xs → Among b (xs ++ ys)
Among-append b [] ys h = absurd h
Among-append b (x ∷ xs) ys (inl e) = inl e
Among-append b (x ∷ xs) ys (inr h) = inr (Among-append b xs ys h)

Among-last : (b : Semver) (xs : List Semver) → Among b (xs ++ b ∷ [])
Among-last b [] = inl refl
Among-last b (x ∷ xs) = inr (Among-last b xs)

not_above :
    (b c : Semver) (svs : List Semver)
    → less b c ≡ true
    → All (λ sv. less b sv ≡ false) svs
    → All (λ sv. less c sv ≡ false) svs
not_above b c [] h k = tt
not_above b c (sv ∷ svs) h k = (ground (arith, less_trans b c sv h, k.0), not_above b c svs h k.1)

better-IsHighest :
    (best : Option Semver) (seen : List Semver) (sv : Semver)
    → IsHighest best seen
    → IsHighest (better best sv) (seen ++ sv ∷ [])
better-IsHighest none seen sv h = rw h (inl refl, (less_irrefl sv, tt))
better-IsHighest (some b) seen sv h =
    if_known (λ (o : Option Semver). IsHighest o (seen ++ sv ∷ [])) (less b sv)
      (λ e. (
        Among-last sv seen,
        All-append (λ u. less sv u ≡ false) seen (sv ∷ []) (not_above b sv seen e h.1)
            (less_irrefl sv, tt),
      ))
      (λ e. (
        Among-append b seen (sv ∷ []) h.0,
        All-append (λ u. less b u ≡ false) seen (sv ∷ []) h.1 (e, tt),
      ))

module _ (version : Text → Option Semver) where
  -- One round of the loop, beside the versions of the same tags.
  round :
      (t : Text) (tags : List Text) (best : Option Semver)
      → ((pick version best (t ∷ tags) ≡ pick version best tags)
          × (versions_of version (t ∷ tags) ≡ versions_of version tags))
        ⊎ ((sv : Semver) × (pick version best (t ∷ tags) ≡ pick version (better best sv) tags)
            × (versions_of version (t ∷ tags) ≡ sv ∷ versions_of version tags))
  unfolding pick versions_of
  round t tags best = elim (Option-cases (version t)) [
    | inl e ↦ inl (rw (e, pick) refl, rw (e, versions_of) refl)
    | inr (sv, e) ↦ inr (sv, rw (e, pick) refl, rw (e, versions_of) refl)
  ]

  ends :
      (best : Option Semver) (seen : List Semver)
      → IsHighest best seen
      → IsHighest (pick version best []) (seen ++ versions_of version [])
  unfolding pick versions_of
  ends best seen h = rw (append-nil seen) h

  pick-from :
      (tags : List Text) (best : Option Semver) (seen : List Semver)
      → IsHighest best seen
      → IsHighest (pick version best tags) (seen ++ versions_of version tags)
  pick-from [] best seen h = ends best seen h
  pick-from (t ∷ tags) best seen h = elim (round t tags best) [
    | inl (p, v) ↦ rw (p, v) (pick-from tags best seen h)
    | inr (sv, p, v) ↦
        rw (p, v, sym (append_assoc seen (sv ∷ []) (versions_of version tags)))
          (pick-from tags (better best sv) (seen ++ sv ∷ []) (better-IsHighest best seen sv h))
  ]

pub pick-IsHighest :
    (version : Text → Option Semver) (tags : List Text)
    → IsHighest (pick version none tags) (versions_of version tags)
pick-IsHighest version tags = pick-from version tags none [] refl

-- The highest tag of a list is the text of one of its versions that no other of them is above; it is
-- empty only where no tag is a version.
highest_semver_tag_exact :
    (tags : List Text)
    → (best : Option Semver) × (highest_semver_tag tags ≡ raw_of best)
      × IsHighest best (versions_of parse_semver_tag tags)
unfolding highest_semver_tag
highest_semver_tag_exact tags =
    (pick parse_semver_tag none tags, refl, pick-IsHighest parse_semver_tag tags)

pub versions_of-All :
    (version : Text → Option Semver) (P : Semver → Type 0) (tags : List Text)
    → ((t : Text) (sv : Semver) → version t ≡ some sv → P sv)
    → All P (versions_of version tags)
unfolding versions_of
versions_of-All version P [] h = tt
versions_of-All version P (t ∷ tags) h = elim (Option-cases (version t)) [
  | inl e ↦ rw (e, versions_of) (versions_of-All version P tags h)
  | inr (sv, e) ↦ rw (e, versions_of) (h t sv e, versions_of-All version P tags h)
]
