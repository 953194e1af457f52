-- ===== src/Evaluator/Choices.antt =====
-- `itertools.combinations`, as poker/evaluator.py uses it.
use adk_poker.Base.{
  ℕ, zero, suc, ◌≤◌, ◌<◌, ◌≡◌, refl, ap, List, [], ◌∷◌, map, arith, length, length-append, All,
  All-append,
}
use adk_poker.Evaluator.{combinations}

map-FiveEach {ℓ} :
    {A : Type ℓ} (n : ℕ) (c : A) (combos : List (List A))
    → All (λ x. length x ≡ n) combos
    → All (λ x. length x ≡ suc n) (map (◌∷◌ c) combos)
map-FiveEach n c [] h = tt
map-FiveEach n c (x ∷ combos) h = (ap suc h.0, map-FiveEach n c combos h.1)

pub combinations-length {ℓ} :
    {A : Type ℓ} (cards : List A) (n : ℕ) → All (λ x. length x ≡ n) (combinations cards n)
unfolding combinations
combinations-length cards zero = (refl, tt)
combinations-length [] (suc n) = tt
combinations-length (c ∷ cards) (suc n) =
    All-append _ (map (◌∷◌ c) (combinations cards n)) (combinations cards (suc n))
      (map-FiveEach n c _ (combinations-length cards n)) (combinations-length cards (suc n))

length-map_cons {ℓ} :
    {A : Type ℓ} (c : A) (combos : List (List A)) → length (map (◌∷◌ c) combos) ≡ length combos
length-map_cons c [] = refl
length-map_cons c (x ∷ combos) = ap suc (length-map_cons c combos)

pub combinations_nonempty {ℓ} :
    {A : Type ℓ} (cards : List A) (n : ℕ) → n ≤ length cards → 0 < length (combinations cards n)
unfolding combinations
combinations_nonempty cards zero h = omega arith
combinations_nonempty [] (suc n) h = absurd (omega arith)
combinations_nonempty (c ∷ cards) (suc n) h = omega (
  arith,
  length-append (map (◌∷◌ c) (combinations cards n)) (combinations cards (suc n)),
  length-map_cons c (combinations cards n),
  combinations_nonempty cards n (omega arith),
)

module _ {ℓ κ} {A : Type ℓ} (P : A → Type κ) where
  All-map_cons :
      (c : A) (combos : List (List A)) → P c → All (All P) combos → All (All P) (map (◌∷◌ c) combos)
  All-map_cons c [] p h = tt
  All-map_cons c (x ∷ combos) p h = ((p, h.0), All-map_cons c combos p h.1)

  pub All-combinations : (cards : List A) (n : ℕ) → All P cards → All (All P) (combinations cards n)
  unfolding combinations
  All-combinations cards zero h = (tt, tt)
  All-combinations [] (suc n) h = tt
  All-combinations (c ∷ cards) (suc n) h =
      All-append _ (map (◌∷◌ c) (combinations cards n)) (combinations cards (suc n))
        (All-map_cons c (combinations cards n) h.0 (All-combinations cards n h.1))
        (All-combinations cards (suc n) h.1)
