-- ===== src/Agent/Scan/Advice.antt =====
-- What a scan's advice rests on.
use bastion_hub.Prelude.{
  is_none, ℤ, pos, negsuc, ◌≡◌, refl, arith, Bool, true, false, ◌&&◌, ◌||◌, not, ◌==◌, List, [],
  ◌∷◌, Text, text_eq, text_eq_refl, Option, none, some, All, Bool-cases, inl, inr, if_both,
}
use bastion_hub.Agent.Registry.{image_repo_tag, Semver, less}
use bastion_hub.Agent.Flavours.{floating_or_latest}
use bastion_hub.Agent.Scan.{
  ScanItem, DigestResult, Probe, need_same, parsed, compare_same, floating, same_tag, no_compatible,
  settle, to_best, versioned, with_tags, advise, advise_all, probe_tags, listed,
  apply_registry_scan_group, zero_semver, or_zero,
}

abbrev pub is_one : ℤ → Bool
is_one (pos n) = n == 1
is_one (negsuc n) = false

-- A version that is parsed goes up within its major version.
abbrev pub goes_up : Option Semver → Option Semver → Bool
goes_up none best = true
goes_up (some c) none = true
goes_up (some c) (some b) = c.major == b.major && less c b

-- An update is told of only where the two digests differ, and a new image is suggested only with an
-- update, for a tag that does not float, and upwards within its major version.
abbrev pub sound : Probe → ScanItem → Bool
sound p it =
    (not (is_one it.has_update) || not (text_eq it.registry_digest it.local_digest))
    && (text_eq it.suggested_image []
        || (is_one it.has_update
            && text_eq it.suggested_image (image_repo_tag p.ref p.best_tag)
            && not (floating_or_latest p.cur_tag)
            && goes_up (parsed p.cur_tag) (parsed p.best_tag)))

pub Sound : Probe → ScanItem → Type 0
Sound p it = sound p it ≡ true

sound-Sound : (p : Probe) (it : ScanItem) → sound p it ≡ true → Sound p it
unfolding Sound
sound-Sound p it h = h

-- An item before its advice.
abbrev pub Fresh : ScanItem → Type 0
Fresh it = (is_one it.has_update ≡ false) × (text_eq it.suggested_image [] ≡ true)

compare_same-Sound :
    (p : Probe) (same loc a b : Text) (it : ScanItem)
    → text_eq it.suggested_image [] ≡ true
    → it.local_digest ≡ loc
    → Sound p (compare_same same loc a b it)
unfolding compare_same
compare_same-Sound p same loc a b it none' local = elim (Bool-cases (text_eq same loc)) [
  | inl h ↦ rw h (sound-Sound p _ (rw none' refl))
  | inr h ↦ rw h (sound-Sound p _ (rw (none', local, h) refl))
]

floating-Sound :
    (e : Option Text) (p : Probe) (loc : Text) (it : ScanItem)
    → Fresh it
    → it.local_digest ≡ loc
    → Sound p (floating e p loc it)
unfolding floating
floating-Sound (some e) p loc it (quiet, none') local = sound-Sound p _ (rw (quiet, none') refl)
floating-Sound none p loc it (quiet, none') local = compare_same-Sound p _ loc _ _ it none' local

same_tag-Sound :
    (e : Option Text) (p : Probe) (loc : Text) (it : ScanItem)
    → Fresh it
    → it.local_digest ≡ loc
    → Sound p (same_tag e p loc it)
unfolding same_tag
same_tag-Sound (some e) p loc it (quiet, none') local = sound-Sound p _ (rw (quiet, none') refl)
same_tag-Sound none p loc it (quiet, none') local = elim (Bool-cases (text_eq p.same.digest [])) [
  | inl h ↦ rw h (elim (Bool-cases (floating_or_latest p.cur_tag)) [
    | inl f ↦ rw f (sound-Sound p _ (rw none' refl))
    | inr f ↦ rw f (sound-Sound p _ (rw (quiet, none') refl))
  ])
  | inr h ↦ rw h (compare_same-Sound p p.same.digest loc _ _ it none' local)
]

no_compatible-Sound :
    (cur all : Option Semver) (p : Probe) (loc : Text) (it : ScanItem)
    → Fresh it
    → it.local_digest ≡ loc
    → Sound p (no_compatible cur all p loc it)
unfolding no_compatible
no_compatible-Sound none all p loc it fresh local = same_tag-Sound p.same.err p loc it fresh local
no_compatible-Sound (some cur) none p loc it fresh local =
    same_tag-Sound p.same.err p loc it fresh local
no_compatible-Sound (some cur) (some all) p loc it fresh local =
    elim (Bool-cases (cur.major == all.major)) [
      | inl h ↦ rw h (same_tag-Sound p.same.err p loc it fresh local)
      | inr h ↦ rw h (sound-Sound p _ (rw fresh.1 refl))
    ]

-- What is known before the versions are compared.
abbrev Compared : Probe → Text → ScanItem → Type 0
Compared p loc it =
    Fresh it
    × (it.local_digest ≡ loc)
    × (it.registry_digest ≡ p.best.digest)
    × (text_eq p.best.digest loc ≡ false)
    × (floating_or_latest p.cur_tag ≡ false)

suggested-Sound :
    (p : Probe) (loc note : Text) (it : ScanItem)
    → Compared p loc it
    → goes_up (parsed p.cur_tag) (parsed p.best_tag) ≡ true
    → Sound p (record it {
      has_update = pos 1;
      note = note;
      suggested_image = image_repo_tag p.ref p.best_tag;
    })
suggested-Sound p loc note it k up =
    sound-Sound p _
      (rw (k.1, k.2, k.3, k.4, up, text_eq_refl (image_repo_tag p.ref p.best_tag)) (ground arith))

drifted-Sound :
    (p : Probe) (loc note : Text) (it : ScanItem)
    → Compared p loc it
    → Sound p (record it { has_update = pos 1; note = note })
drifted-Sound p loc note it k = sound-Sound p _ (rw (k.1, k.2, k.3, k.0.1) refl)

quiet-Sound :
    (p : Probe) (note : Text) (it : ScanItem)
    → Fresh it
    → Sound p (record it { has_update = pos 0; note = note })
quiet-Sound p note it fresh = sound-Sound p _ (rw fresh.1 refl)

abbrev newer_than : Option Semver → Semver → Bool
newer_than none best = true
newer_than (some c) best = less c best

settle-Sound :
    (cur : Option Semver) (best : Semver) (p : Probe) (loc : Text) (it : ScanItem)
    → Compared p loc it
    → (newer_than cur best ≡ true → goes_up (parsed p.cur_tag) (parsed p.best_tag) ≡ true)
    → Sound p (settle cur best p loc it)
unfolding settle
settle-Sound none best p loc it k up = rw k.4 (suggested-Sound p loc _ it k (up refl))
settle-Sound (some c) best p loc it k up = elim (Bool-cases (less c best)) [
  | inl h ↦ rw (k.4, h) (suggested-Sound p loc _ it k (up h))
  | inr h ↦ elim (Bool-cases (text_eq p.cur_tag p.best_tag)) [
    | inl t ↦ rw (k.4, h, t) (drifted-Sound p loc _ it k)
    | inr t ↦ rw (k.4, h, t) (quiet-Sound p _ it k.0)
  ]
]

to_best-Sound :
    (cur best : Option Semver) (p : Probe) (loc : Text) (it : ScanItem)
    → parsed p.cur_tag ≡ cur
    → parsed p.best_tag ≡ best
    → Fresh it
    → it.local_digest ≡ loc
    → floating_or_latest p.cur_tag ≡ false
    → Sound p (to_best cur best p loc it)
unfolding to_best
to_best-Sound none best p loc it ec eb fresh local fl =
    elim (Bool-cases (text_eq p.best.digest loc)) [
      | inl h ↦ rw h (quiet-Sound p _ (record it { registry_digest = p.best.digest }) fresh)
      | inr h ↦ rw h (
          settle-Sound none (or_zero best) p loc (record it { registry_digest = p.best.digest })
            (fresh, local, refl, h, fl) (λ _. rw ec refl))
    ]
to_best-Sound (some c) none p loc it ec eb fresh local fl =
    elim (Bool-cases (text_eq p.best.digest loc)) [
      | inl h ↦ rw h (quiet-Sound p _ (record it { registry_digest = p.best.digest }) fresh)
      | inr h ↦ rw h (
          settle-Sound (some c) zero_semver p loc (record it { registry_digest = p.best.digest })
            (fresh, local, refl, h, fl) (λ _. rw (ec, eb) refl))
    ]
to_best-Sound (some c) (some b) p loc it ec eb fresh local fl =
    elim (Bool-cases (c.major == b.major)) [
      | inr m ↦ rw m (quiet-Sound p _ (record it { registry_digest = p.best.digest }) fresh)
      | inl m ↦ elim (Bool-cases (text_eq p.best.digest loc)) [
        | inl h ↦ rw (m, h) (quiet-Sound p _ (record it { registry_digest = p.best.digest }) fresh)
        | inr h ↦
            rw (m, h)
              (settle-Sound (some c) b p loc (record it { registry_digest = p.best.digest })
                (fresh, local, refl, h, fl) (λ up. rw (ec, eb, m, up) refl))
      ]
    ]

versioned-Sound :
    (has_best : Bool) (e : Option Text) (p : Probe) (loc : Text) (it : ScanItem)
    → Fresh it
    → it.local_digest ≡ loc
    → floating_or_latest p.cur_tag ≡ false
    → Sound p (versioned has_best e p loc it)
unfolding versioned
versioned-Sound true none p loc it fresh local fl =
    to_best-Sound (parsed p.cur_tag) (parsed p.best_tag) p loc it refl refl fresh local fl
versioned-Sound true (some e) p loc it fresh local fl =
    if_both (Sound p) (not (need_same p.cur_tag p.best_tag) || not (is_none p.same.err))
      (sound-Sound p _ (rw (fresh.0, fresh.1) refl))
      (no_compatible-Sound (parsed p.cur_tag) (parsed p.best_overall_tag) p loc it fresh local)
versioned-Sound false e p loc it fresh local fl =
    no_compatible-Sound (parsed p.cur_tag) (parsed p.best_overall_tag) p loc it fresh local

with_tags-Sound :
    (e : Option Text) (p : Probe) (loc : Text) (it : ScanItem)
    → Fresh it
    → it.local_digest ≡ loc
    → floating_or_latest p.cur_tag ≡ false
    → Sound p (with_tags e p loc it)
unfolding with_tags
with_tags-Sound (some e) p loc it fresh local fl = sound-Sound p _ (rw (fresh.0, fresh.1) refl)
with_tags-Sound none p loc it fresh local fl =
    versioned-Sound (not (text_eq p.best_tag [])) p.best.err p loc it fresh local fl

advise-Sound :
    (p : Probe) (e : Option Text) (loc : Text) (it : ScanItem)
    → Fresh it
    → Sound p (advise p e loc it)
unfolding advise
advise-Sound p (some e) loc it fresh = elim (Bool-cases (text_eq loc [])) [
  | inl h ↦ rw h (sound-Sound p _ (rw (fresh.0, fresh.1) refl))
  | inr h ↦ rw h (sound-Sound p _ (rw (fresh.0, fresh.1) refl))
]
advise-Sound p none loc it fresh = elim (Bool-cases (text_eq loc [])) [
  | inl h ↦ rw h (sound-Sound p _ (rw (fresh.0, fresh.1) refl))
  | inr h ↦ rw h (elim (Bool-cases (floating_or_latest p.cur_tag)) [
    | inl f ↦ rw f (floating-Sound p.same.err p loc _ fresh refl)
    | inr f ↦ rw f (with_tags-Sound p.tags_err p loc _ fresh refl f)
  ])
]

advise_all-Sound :
    (running : Text → Text → DigestResult) (p : Probe) (items : List (Text × ScanItem))
    (cache : List (Text × DigestResult))
    → All (λ x. Fresh x.1) items
    → All (Sound p) (advise_all running p cache items)
unfolding advise_all
advise_all-Sound running p [] cache fresh = tt
advise_all-Sound running p ((image_id, it) ∷ items) cache fresh =
    (advise-Sound p _ _ it fresh.0, advise_all-Sound running p items _ fresh.1)

-- Of the items of a group that have no advice yet: one is told of an update only if the digest that the
-- registry gave and the running one differ, and an image is suggested only with an update, and then it
-- is the group's image under the best compatible tag, the configured tag does not float, and where both
-- tags have versions the new one is higher and in the same major version.
pub apply_registry_scan_group-Sound :
    (running : Text → Text → DigestResult) (registry_digest : Text → DigestResult)
    (tags_err : Option Text) (tags : List Text) (ref : Text) (items : List (Text × ScanItem))
    → All (λ x. Fresh x.1) items
    → All
        (Sound (probe_tags registry_digest ref tags_err (listed tags_err tags)))
        (apply_registry_scan_group running registry_digest tags_err tags ref items)
unfolding apply_registry_scan_group
apply_registry_scan_group-Sound running registry_digest tags_err tags ref items fresh =
    advise_all-Sound running _ items [] fresh
