-- ===== src/Evaluator/Order.antt =====
-- The order of hands: `HandResult.__lt__` and `HandEvaluator.compare_hands`.
use adk_poker.Base.{ℕ, ◌≡◌, refl, ◌↔◌, true, false, List, [], ◌∷◌, arith, length}
use adk_poker.Base.Int.{pos, negsuc, ◌-ℤ◌}
use adk_poker.Ranking.{HandResult, rank_value, kickers_lt, hand_lt, compare_kickers, compare_hands}
use adk_poker.Evaluator.{replaces}

compare_kickers-swap : (ks ls : List ℕ) → compare_kickers ls ks ≡ pos 0 -ℤ compare_kickers ks ls
unfolding compare_kickers ◌-ℤ◌
compare_kickers-swap [] [] = refl
compare_kickers-swap [] (l ∷ ls) = refl
compare_kickers-swap (k ∷ ks) [] = refl
compare_kickers-swap (k ∷ ks) (l ∷ ls) = ground (arith, compare_kickers-swap ks ls)

-- Comparing in the other order gives the opposite sign.
pub compare_hands-swap : (a b : HandResult) → compare_hands b a ≡ pos 0 -ℤ compare_hands a b
unfolding compare_hands ◌-ℤ◌
compare_hands-swap a b = ground (arith, compare_kickers-swap a.kickers b.kickers)

kickers_lt-compare :
    (ks ls : List ℕ) → (kickers_lt ks ls ≡ true) ↔ (compare_kickers ks ls ≡ negsuc 0)
unfolding kickers_lt compare_kickers
kickers_lt-compare [] [] = (λ h. cc, λ h. cc)
kickers_lt-compare [] (l ∷ ls) = (λ h. cc, λ h. cc)
kickers_lt-compare (k ∷ ks) [] = (λ h. cc, λ h. cc)
kickers_lt-compare (k ∷ ks) (l ∷ ls) =
    let ih = kickers_lt-compare ks ls in (λ h. ground (arith, ih), λ h. ground (arith, ih))

-- __lt__ holds exactly where compare_hands says that the other hand wins.
pub hand_lt-compare_hands :
    (a b : HandResult) → (hand_lt a b ≡ true) ↔ (compare_hands a b ≡ negsuc 0)
unfolding hand_lt compare_hands
hand_lt-compare_hands a b =
    let ih = kickers_lt-compare a.kickers b.kickers in
    (λ h. ground (arith, ih), λ h. ground (arith, ih))

-- Between lists of one length, "not below" is transitive.
kickers_lt_trans :
    (ks ls ms : List ℕ)
    → length ks ≡ length ls
    → length ls ≡ length ms
    → kickers_lt ks ls ≡ false
    → kickers_lt ls ms ≡ false
    → kickers_lt ks ms ≡ false
unfolding kickers_lt
kickers_lt_trans [] ls ms p q h h' = refl
kickers_lt_trans (k ∷ ks) [] ms p q h h' = absurd (omega arith)
kickers_lt_trans (k ∷ ks) (l ∷ ls) [] p q h h' = absurd (omega arith)
kickers_lt_trans (k ∷ ks) (l ∷ ls) (m ∷ ms) p q h h' =
    ground (arith, kickers_lt_trans ks ls ms (omega arith) (omega arith))

-- Two hands are comparable: one rank has one number of kickers.
abbrev pub Comparable : HandResult → HandResult → Type 0
Comparable a b = rank_value a.rank ≡ rank_value b.rank → length a.kickers ≡ length b.kickers

-- Between hands whose kickers are of one length where their ranks agree, "not below" is
-- transitive.
pub hand_lt_trans :
    (a b c : HandResult)
    → Comparable a b
    → Comparable b c
    → hand_lt a b ≡ false
    → hand_lt b c ≡ false
    → hand_lt a c ≡ false
unfolding hand_lt
hand_lt_trans a b c p q h h' = grind (arith, kickers_lt_trans a.kickers b.kickers c.kickers)

kickers_lt_irrefl : (ks : List ℕ) → kickers_lt ks ks ≡ false
unfolding kickers_lt
kickers_lt_irrefl [] = refl
kickers_lt_irrefl (k ∷ ks) = ground (arith, kickers_lt_irrefl ks)

pub hand_lt_irrefl : (a : HandResult) → hand_lt a a ≡ false
unfolding hand_lt
hand_lt_irrefl a = ground (arith, kickers_lt_irrefl a.kickers)

kickers_lt_asym : (ks ls : List ℕ) → kickers_lt ks ls ≡ true → kickers_lt ls ks ≡ false
unfolding kickers_lt
kickers_lt_asym [] ls h = cc
kickers_lt_asym (k ∷ ks) [] h = refl
kickers_lt_asym (k ∷ ks) (l ∷ ls) h = ground (arith, kickers_lt_asym ks ls)

-- A hand that replaces the best so far is not below it.
pub replaces-true : (a b : HandResult) → replaces a b ≡ true → hand_lt a b ≡ false
unfolding hand_lt
replaces-true a b h = ground arith

-- One that does not is not above it.
pub replaces-false : (a b : HandResult) → replaces a b ≡ false → hand_lt b a ≡ false
unfolding hand_lt
replaces-false a b h = ground (arith, kickers_lt_asym a.kickers b.kickers)
