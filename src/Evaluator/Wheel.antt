-- ===== src/Evaluator/Wheel.antt =====
-- `HandEvaluator._is_straight`, and the straight flush from the ace down to the two.
use adk_poker.Base.{
  ℕ, ◌+◌, ◌<◌, ◌≡◌, refl, ap, ◌∙◌, sym, ◌⊎◌, inl, inr, true, false, List, [], ◌∷◌, arith, length,
  contains, Bool-cases, ◌↔◌,
}
use mathlib.Core.Path.{subst}
use adk_poker.Result.{ok}
use adk_poker.Cards.{Card}
use adk_poker.Ranking.{royal_flush, royal, same_ranks}
use adk_poker.Evaluator.{
  evaluate_five_cards, evaluate_sorted, classify, sort_cards, is_flush, is_straight, counter_from,
  counts_of, result, ranks_of, wheel, straight_ranks, sort_desc, insert_desc, distinct,
}
use adk_poker.Evaluator.Shape.{same_ranks-eq}

-- Strictly falling ranks are their own sorted set.
abbrev pub Falls : List ℕ → Type 0
Falls [] = Unit
Falls (x ∷ []) = Unit
Falls (x ∷ y ∷ xs) = (y < x) × Falls (y ∷ xs)

contains_below : (x y : ℕ) (xs : List ℕ) → y < x → Falls (y ∷ xs) → contains x (y ∷ xs) ≡ false
contains_below x y [] h k = ground arith
contains_below x y (z ∷ xs) h k = ground (arith, contains_below x z xs (omega arith) k.1)

distinct-Falls : (xs : List ℕ) → Falls xs → distinct xs ≡ xs
unfolding distinct
distinct-Falls [] h = refl
distinct-Falls (x ∷ []) h = refl
distinct-Falls (x ∷ y ∷ xs) h = rw (distinct-Falls (y ∷ xs) h.1, contains_below x y xs h.0 h.1)

sort_desc-Falls : (xs : List ℕ) → Falls xs → sort_desc xs ≡ xs
unfolding sort_desc insert_desc
sort_desc-Falls [] h = refl
sort_desc-Falls (x ∷ []) h = refl
sort_desc-Falls (x ∷ y ∷ xs) h = ground (arith, sort_desc-Falls (y ∷ xs) h.1)

is_straight-Falls : (xs : List ℕ) → Falls xs → is_straight xs ≡ straight_ranks xs
unfolding is_straight
is_straight-Falls xs h = rw (distinct-Falls xs h, sort_desc-Falls xs h)

five_ranks :
    (a b c d e : ℕ)
    → Falls (a ∷ b ∷ c ∷ d ∷ e ∷ [])
    → straight_ranks (a ∷ b ∷ c ∷ d ∷ e ∷ []) ≡ true
    → ((b + 1 ≡ a) × (c + 1 ≡ b) × (d + 1 ≡ c) × (e + 1 ≡ d)) ⊎ (a ∷ b ∷ c ∷ d ∷ e ∷ [] ≡ wheel)
unfolding straight_ranks
five_ranks a b c d e f h = elim (Bool-cases (same_ranks (a ∷ b ∷ c ∷ d ∷ e ∷ []) wheel)) [
  | inl w ↦ inr (same_ranks-eq _ _ w)
  | inr w ↦ inl (ground arith)
]

ranks_five :
    (a b c d e : ℕ)
    → ((b + 1 ≡ a) × (c + 1 ≡ b) × (d + 1 ≡ c) × (e + 1 ≡ d)) ⊎ (a ∷ b ∷ c ∷ d ∷ e ∷ [] ≡ wheel)
    → straight_ranks (a ∷ b ∷ c ∷ d ∷ e ∷ []) ≡ true
unfolding straight_ranks
ranks_five a b c d e (inl h) = ground arith
ranks_five a b c d e (inr w) = subst (λ xs. straight_ranks xs ≡ true) (sym w) refl

-- Five falling ranks are a straight exactly when they go down one by one, or are A, 5, 4, 3, 2.
pub is_straight_iff :
    (a b c d e : ℕ)
    → Falls (a ∷ b ∷ c ∷ d ∷ e ∷ [])
    → (is_straight (a ∷ b ∷ c ∷ d ∷ e ∷ []) ≡ true)
      ↔ (((b + 1 ≡ a) × (c + 1 ≡ b) × (d + 1 ≡ c) × (e + 1 ≡ d)) ⊎ (a ∷ b ∷ c ∷ d ∷ e ∷ [] ≡ wheel))
is_straight_iff a b c d e f =
    rw (is_straight-Falls (a ∷ b ∷ c ∷ d ∷ e ∷ []) f) (five_ranks a b c d e f, ranks_five a b c d e)

royal_classify :
    (cards : List Card) (top : Card) (items : List (ℕ × ℕ)) (counts : List ℕ)
    → top.rank ≡ 14
    → classify cards top true true items counts ≡ result royal_flush cards (14 ∷ []) royal
unfolding classify
royal_classify cards top items counts h = ground arith

wheel-is_straight : is_straight wheel ≡ true
unfolding is_straight
wheel-is_straight = refl

sorted_wheel :
    (sorted : List Card)
    → ranks_of sorted ≡ wheel
    → is_flush sorted ≡ true
    → evaluate_sorted sorted ≡ result royal_flush sorted (14 ∷ []) royal
unfolding evaluate_sorted
sorted_wheel [] w f = cc
sorted_wheel (c ∷ rest) w f =
    let k : c.rank ≡ 14 = cc in
    let s : is_straight (ranks_of (c ∷ rest)) ≡ true = ap is_straight w ∙ wheel-is_straight in
    rw (f, s)
      (royal_classify (c ∷ rest) c (counter_from [] (ranks_of (c ∷ rest)))
        (counts_of (counter_from [] (ranks_of (c ∷ rest)))) k)

-- What the code rates as a royal flush: five suited cards A, 5, 4, 3, 2, in whatever order they
-- come, are one.
pub steel_wheel_is_royal :
    (cards : List Card)
    → length cards ≡ 5
    → ranks_of (sort_cards cards) ≡ wheel
    → is_flush (sort_cards cards) ≡ true
    → evaluate_five_cards cards
      ≡ ok (record {
        rank = royal_flush;
        cards = sort_cards cards;
        kickers = 14 ∷ [];
        description = royal;
      })
unfolding evaluate_five_cards
steel_wheel_is_royal cards h w f = rw h (sorted_wheel (sort_cards cards) w f)
