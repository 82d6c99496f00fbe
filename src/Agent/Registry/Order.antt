-- ===== src/Agent/Registry/Order.antt =====
-- The order of versions.
use bastion_hub.Prelude.{◌≡◌, refl, true, false, [], ◌∷◌, arith, Text}
use bastion_hub.Agent.Registry.{Semver, text_ltb, less}

text_ltb_trans : (s t u : Text) → text_ltb s t ≡ true → text_ltb t u ≡ true → text_ltb s u ≡ true
unfolding text_ltb
text_ltb_trans s [] u h k = cc
text_ltb_trans s (b ∷ t) [] h k = cc
text_ltb_trans [] (b ∷ t) (c ∷ u) h k = refl
text_ltb_trans (a ∷ s) (b ∷ t) (c ∷ u) h k = ground (arith, text_ltb_trans s t u)

text_ltb_irrefl : (s : Text) → text_ltb s s ≡ false
unfolding text_ltb
text_ltb_irrefl [] = refl
text_ltb_irrefl (a ∷ s) = ground (arith, text_ltb_irrefl s)

pub less_irrefl : (a : Semver) → less a a ≡ false
unfolding less
less_irrefl a = ground (arith, text_ltb_irrefl a.pre)

-- A version that is below another is below all that are above that one.
pub less_trans : (a b c : Semver) → less a b ≡ true → less b c ≡ true → less a c ≡ true
unfolding less
less_trans a b c h k = ground (arith, text_ltb_trans a.pre b.pre c.pre)
