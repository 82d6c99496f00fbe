-- ===== src/Health/Tests.antt =====
-- The theorem of the cache at a concrete series of samples.
use bastion_hub.Prelude.{
  ℕ, ◌-◌, ◌≡◌, refl, false, none, [], ◌∷◌, codes, text_eq, leb, filter, drop, lookup,
}
use bastion_hub.Health.Cache.{Cache, history, put_all, max_history, history-put_all}

abbrev empty_cache : Cache ℕ
empty_cache = []

a_not_b : text_eq (codes "a") (codes "b") ≡ false
unfolding text_eq
a_not_b = refl

a_absent : lookup (codes "a") empty_cache ≡ none
unfolding lookup
a_absent = refl

history-put_all_example :
    (history (λ s. s) (put_all empty_cache (codes "a") (3 ∷ 5 ∷ 8 ∷ [])) (codes "a") 4
      ≡ filter (λ s. leb 4 s) (drop (3 - max_history) (3 ∷ 5 ∷ 8 ∷ [])))
    × (history (λ s. s) (put_all empty_cache (codes "a") (3 ∷ 5 ∷ 8 ∷ [])) (codes "b") 4
        ≡ history (λ s. s) empty_cache (codes "b") 4)
history-put_all_example =
    history-put_all (λ s. s) empty_cache (codes "a") (codes "b") (3 ∷ 5 ∷ 8 ∷ []) 4 a_absent a_not_b
