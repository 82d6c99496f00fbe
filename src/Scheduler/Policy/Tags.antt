-- ===== src/Scheduler/Policy/Tags.antt =====
-- imageTagOf on references with and without a tag.
use bastion_hub.Prelude.{
  ℕ, ◌≡◌, refl, false, none, some, [], ◌∷◌, ◌++◌, arith, Text, cut_last, has_byte, if◌then◌else◌,
}
use bastion_hub.Scheduler.Policy.{image_tag_of}

cut_last-absent : (b : ℕ) (s : Text) → has_byte b s ≡ false → cut_last b s ≡ none
unfolding cut_last has_byte
cut_last-absent b [] h = refl
cut_last-absent b (c ∷ s) h = ground (arith, cut_last-absent b s)

-- The last place of a byte is in front of a text that does not hold it.
cut_last-append :
    (b : ℕ) (x y : Text) → has_byte b y ≡ false → cut_last b (x ++ b ∷ y) ≡ some (x, y)
unfolding cut_last
cut_last-append b [] y h = ground (arith, cut_last-absent b y h)
cut_last-append b (c ∷ x) y h = ground (arith, cut_last-append b x y h)

-- What stands behind the last ':' of a reference is its tag, unless it holds a '/': then the colon
-- belongs to the port of a registry, and the reference has no tag.
image_tag_of-append :
    (repo tag : Text)
    → has_byte b':' tag ≡ false
    → image_tag_of (repo ++ b':' ∷ tag) ≡ (if has_byte b'/' tag then [] else tag)
unfolding image_tag_of
image_tag_of-append repo tag h = ground (arith, cut_last-append b':' repo tag h)
