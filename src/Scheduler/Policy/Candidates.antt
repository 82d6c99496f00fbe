-- ===== src/Scheduler/Policy/Candidates.antt =====
-- What the update policy selects, and how it counts.
use bastion_hub.Prelude.{
  ℕ, suc, ◌+◌, ◌≡◌, refl, ap, sym, ◌∙◌, Bool, true, false, ◌&&◌, ◌||◌, not, List, [], ◌∷◌, ◌++◌,
  map, append_assoc, append-nil, arith, codes, text_eq, trim_space, filter, length, if◌then◌else◌,
  Bool-cases, ◌⊎◌, inl, inr,
}
use bastion_hub.Scheduler.Policy.{
  HasUpdate, unchanged_, update_, unknown_, ScanItem, CandDesc, Counts,
  registry_eligible_update_type, describe, classify_item, classify_from, classify_update_candidates,
}

abbrev pub is_update : HasUpdate → Bool
is_update unchanged_ = false
is_update update_ = true
is_update unknown_ = false

-- The policy: a changed image of a container that runs (or whose state is not known), either on a
-- floating channel or on a tag for which a newer one is suggested.
abbrev pub wanted : ScanItem → Bool
wanted item =
    is_update item.has_update
    && (text_eq item.state [] || text_eq item.state (codes "running"))
    && (text_eq item.update_type (codes "latest")
        || text_eq item.update_type (codes "tag")
          && not (text_eq (trim_space item.suggested_image) []))

-- All items so far, by their counters: those of an unknown state are among the skipped.
abbrev total : Counts → ℕ
total c = c.candidates + c.unchanged + c.skipped

classify_item-exact :
    (item : ScanItem) (descs : List CandDesc) (out : Counts)
    → ((classify_item item (descs, out)).0
        ≡ descs ++ (if wanted item then describe item ∷ [] else []))
      × (total (classify_item item (descs, out)).1 ≡ suc (total out))
      × ((classify_item item (descs, out)).1.candidates
          ≡ out.candidates + (if wanted item then 1 else 0))
unfolding classify_item registry_eligible_update_type
classify_item-exact item descs out = ground (arith, append-nil descs)

classify_from-exact :
    (items : List ScanItem) (descs : List CandDesc) (out : Counts)
    → ((classify_from items (descs, out)).0 ≡ descs ++ map describe (filter wanted items))
      × (total (classify_from items (descs, out)).1 ≡ total out + length items)
      × ((classify_from items (descs, out)).1.candidates
          ≡ out.candidates + length (filter wanted items))
unfolding classify_from
classify_from-exact [] descs out = (sym (append-nil descs), omega arith, omega arith)
classify_from-exact (item ∷ items) descs out =
    let (picked, counted, cands) = classify_item-exact item descs out in
    let (a, b, c) =
      classify_from-exact items (classify_item item (descs, out)).0
        (classify_item item (descs, out)).1 in
    (
      a
          ∙ ap (λ d. d ++ map describe (filter wanted items)) picked
          ∙ regroup (Bool-cases (wanted item)),
      omega (arith, b, counted),
      c ∙ (ground (arith, cands)),
    )
  where
    regroup :
        (wanted item ≡ true) ⊎ (wanted item ≡ false)
        → (descs ++ (if wanted item then describe item ∷ [] else []))
            ++ map describe (filter wanted items)
          ≡ descs ++ map describe (filter wanted (item ∷ items))
    regroup (inl e) = rw e (append_assoc descs (describe item ∷ []) _)
    regroup (inr e) = rw (e, append-nil descs) refl

-- The containers that a schedule upgrades are exactly those that the policy wants, in the order of
-- the scan, each counted as a candidate; and each scanned item is counted once, as a candidate, as
-- unchanged or as skipped.
pub classify_update_candidates_exact :
    (items : List ScanItem)
    → ((classify_update_candidates items).0 ≡ map describe (filter wanted items))
      × ((classify_update_candidates items).1.candidates ≡ length (filter wanted items))
      × ((classify_update_candidates items).1.candidates
            + (classify_update_candidates items).1.unchanged
            + (classify_update_candidates items).1.skipped
          ≡ length items)
unfolding classify_update_candidates
classify_update_candidates_exact items =
    let (a, b, c) =
      classify_from-exact items []
        (record { candidates = 0; unchanged = 0; skipped = 0; unknown = 0 }) in
    (a, omega (arith, c), omega (arith, b))

pub name-describe : (item : ScanItem) → (describe item).name ≡ item.name
unfolding describe
name-describe item = refl

-- The classification's descriptions.
pub descs-classify :
    (items : List ScanItem)
    → (classify_update_candidates items).0 ≡ map describe (filter wanted items)
descs-classify items = (classify_update_candidates_exact items).0
