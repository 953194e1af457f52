-- ===== src/Evaluator/Shape.antt =====
-- `HandEvaluator._evaluate_five_cards`: its branches and their kickers.
use adk_poker.Base.{
  ℕ, suc, ◌≤◌, ◌<◌, ◌≡◌, ◌≢◌, refl, ap, ◌∙◌, sym, inl, inr, Bool, true, false, List, [], ◌∷◌, map,
  arith, ◌==◌, length, Bool-cases, if◌then◌else◌,
}
use adk_poker.Result.{Result, ok, raise, value_error, first}
use adk_poker.Cards.{Card}
use adk_poker.Ranking.{
  HandRank, HandResult, royal_flush, straight_flush, four_of_a_kind, full_house, flush, straight,
  three_of_a_kind, two_pair, one_pair, high_card, same_ranks,
}
use adk_poker.Evaluator.{
  counter_from, distinct, is_flush, is_straight, insert_card, sort_cards, insert_desc, sort_desc,
  ranks_of, ranks_with, counts_of, four_of, full_of_ranks, three_of, two_pair_of, one_pair_of,
  lower_hands, classify, evaluate_sorted, evaluate_five_cards,
}

length-insert_card :
    (c : Card) (cards : List Card) → length (insert_card c cards) ≡ suc (length cards)
unfolding insert_card
length-insert_card c [] = refl
length-insert_card c (d ∷ cards) = ground (arith, length-insert_card c cards)

pub length-sort_cards : (cards : List Card) → length (sort_cards cards) ≡ length cards
unfolding sort_cards
length-sort_cards [] = refl
length-sort_cards (c ∷ cards) =
    omega (arith, length-insert_card c (sort_cards cards), length-sort_cards cards)

pub length-ranks_of : (cards : List Card) → length (ranks_of cards) ≡ length cards
length-ranks_of [] = refl
length-ranks_of (c ∷ cards) = ap suc (length-ranks_of cards)

-- How often a number stands in a list.
abbrev count : ℕ → List ℕ → ℕ
count n [] = 0
count n (x ∷ xs) = if x == n then suc (count n xs) else count n xs

count-insert_desc : (n x : ℕ) (xs : List ℕ) → count n (insert_desc x xs) ≡ count n (x ∷ xs)
unfolding insert_desc
count-insert_desc n x [] = refl
count-insert_desc n x (y ∷ ys) = ground (arith, count-insert_desc n x ys)

count-sort_desc : (n : ℕ) (xs : List ℕ) → count n (sort_desc xs) ≡ count n xs
unfolding sort_desc
count-sort_desc n [] = refl
count-sort_desc n (x ∷ xs) =
    ground (arith, count-insert_desc n x (sort_desc xs), count-sort_desc n xs)

pub length-insert_desc : (x : ℕ) (xs : List ℕ) → length (insert_desc x xs) ≡ suc (length xs)
unfolding insert_desc
length-insert_desc x [] = refl
length-insert_desc x (y ∷ ys) = ground (arith, length-insert_desc x ys)

pub length-sort_desc : (xs : List ℕ) → length (sort_desc xs) ≡ length xs
unfolding sort_desc
length-sort_desc [] = refl
length-sort_desc (x ∷ xs) = omega (arith, length-insert_desc x (sort_desc xs), length-sort_desc xs)

pub length-distinct : (xs : List ℕ) → length (distinct xs) ≤ length xs
unfolding distinct
length-distinct [] = omega arith
length-distinct (x ∷ xs) = ground (arith, length-distinct xs)

length-ranks_with :
    (n : ℕ) (items : List (ℕ × ℕ))
    → length (ranks_with n items) ≡ count n (map (λ (e : ℕ × ℕ). e.1) items)
length-ranks_with n [] = refl
length-ranks_with n (e ∷ items) = ground (arith, length-ranks_with n items)

pub same_ranks-eq : (xs ys : List ℕ) → same_ranks xs ys ≡ true → xs ≡ ys
same_ranks-eq [] [] h = refl
same_ranks-eq [] (y ∷ ys) h = cc
same_ranks-eq (x ∷ xs) [] h = cc
same_ranks-eq (x ∷ xs) (y ∷ ys) h = ground (arith, same_ranks-eq xs ys)

-- How many ranks occur `n` times, once the sorted counts are known.
length-ranks_with_counts :
    (n : ℕ) (items : List (ℕ × ℕ)) (counts : List ℕ)
    → same_ranks (counts_of items) counts ≡ true
    → length (ranks_with n items) ≡ count n counts
unfolding counts_of
length-ranks_with_counts n items counts h =
    length-ranks_with n items
    ∙ sym (count-sort_desc n (map (λ (e : ℕ × ℕ). e.1) items))
    ∙ ap (count n) (same_ranks-eq _ _ h)

-- The number of kickers of a rank.
abbrev pub kickers_count : HandRank → ℕ
kickers_count royal_flush = 1
kickers_count straight_flush = 1
kickers_count four_of_a_kind = 2
kickers_count full_house = 2
kickers_count flush = 5
kickers_count straight = 1
kickers_count three_of_a_kind = 3
kickers_count two_pair = 3
kickers_count one_pair = 4
kickers_count high_card = 5

abbrev pub IsShaped : HandResult → Type 0
IsShaped r = length r.kickers ≡ kickers_count r.rank

abbrev pub Evaluates : Result HandResult → Type 0
Evaluates m = (r : HandResult) × (m ≡ ok r) × IsShaped r

first-cases : (xs : List ℕ) → 0 < length xs → (x : ℕ) × (first xs ≡ ok x)
first-cases [] h = elim h [ ]
first-cases (x ∷ xs) h = (x, refl)

module _ (cards : List Card) (items : List (ℕ × ℕ)) where
  four_of-Evaluates :
      same_ranks (counts_of items) (4 ∷ 1 ∷ []) ≡ true → Evaluates (four_of cards items)
  unfolding four_of
  four_of-Evaluates h =
      let (x, e) =
        first-cases (ranks_with 4 items) (omega (arith, length-ranks_with_counts 4 items _ h)) in
      let (y, f) =
        first-cases (ranks_with 1 items) (omega (arith, length-ranks_with_counts 1 items _ h)) in
      rw (e, f) (_, refl, refl)

  full_of_ranks-Evaluates :
      same_ranks (counts_of items) (3 ∷ 2 ∷ []) ≡ true → Evaluates (full_of_ranks cards items)
  unfolding full_of_ranks
  full_of_ranks-Evaluates h =
      let (x, e) =
        first-cases (ranks_with 3 items) (omega (arith, length-ranks_with_counts 3 items _ h)) in
      let (y, f) =
        first-cases (ranks_with 2 items) (omega (arith, length-ranks_with_counts 2 items _ h)) in
      rw (e, f) (_, refl, refl)

  three_of-Evaluates :
      same_ranks (counts_of items) (3 ∷ 1 ∷ 1 ∷ []) ≡ true → Evaluates (three_of cards items)
  unfolding three_of
  three_of-Evaluates h =
      let (x, e) =
        first-cases (ranks_with 3 items) (omega (arith, length-ranks_with_counts 3 items _ h)) in
      rw e (
        _,
        refl,
        omega (arith, length-sort_desc (ranks_with 1 items), length-ranks_with_counts 1 items _ h),
      )

  one_pair_of-Evaluates :
      same_ranks (counts_of items) (2 ∷ 1 ∷ 1 ∷ 1 ∷ []) ≡ true → Evaluates (one_pair_of cards items)
  unfolding one_pair_of
  one_pair_of-Evaluates h =
      let (x, e) =
        first-cases (ranks_with 2 items) (omega (arith, length-ranks_with_counts 2 items _ h)) in
      rw e (
        _,
        refl,
        omega (arith, length-sort_desc (ranks_with 1 items), length-ranks_with_counts 1 items _ h),
      )

  two_pair_of-Evaluates_from :
      (pairs : List ℕ)
      → length pairs ≡ 2
      → 0 < length (ranks_with 1 items)
      → Evaluates (two_pair_of cards pairs items)
  unfolding two_pair_of
  two_pair_of-Evaluates_from [] h k = absurd (omega arith)
  two_pair_of-Evaluates_from (p ∷ []) h k = absurd (omega arith)
  two_pair_of-Evaluates_from (p ∷ q ∷ []) h k =
      let (x, e) = first-cases (ranks_with 1 items) k in rw e (_, refl, refl)
  two_pair_of-Evaluates_from (p ∷ q ∷ r ∷ pairs) h k = absurd (omega arith)

  two_pair_of-Evaluates :
      same_ranks (counts_of items) (2 ∷ 2 ∷ 1 ∷ []) ≡ true
      → Evaluates (two_pair_of cards (sort_desc (ranks_with 2 items)) items)
  two_pair_of-Evaluates h =
      two_pair_of-Evaluates_from (sort_desc (ranks_with 2 items))
        (omega (arith, length-sort_desc (ranks_with 2 items), length-ranks_with_counts 2 items _ h))
        (omega (arith, length-ranks_with_counts 1 items _ h))

  module _ (top : Card) (five : length cards ≡ 5) where
    lower_hands-Evaluates : Evaluates (lower_hands cards top items (counts_of items))
    unfolding lower_hands
    lower_hands-Evaluates = elim (Bool-cases (same_ranks (counts_of items) (3 ∷ 1 ∷ 1 ∷ []))) [
      | inl e ↦ rw e (three_of-Evaluates e)
      | inr e ↦ rw e (elim (Bool-cases (same_ranks (counts_of items) (2 ∷ 2 ∷ 1 ∷ []))) [
        | inl f ↦ rw f (two_pair_of-Evaluates f)
        | inr f ↦ rw f (elim (Bool-cases (same_ranks (counts_of items) (2 ∷ 1 ∷ 1 ∷ 1 ∷ []))) [
          | inl g ↦ rw g (one_pair_of-Evaluates g)
          | inr g ↦ rw g (_, refl, length-ranks_of cards ∙ five)
        ])
      ])
    ]

    -- The tests for four of a kind and a full house, above whatever follows them.
    counted-Evaluates :
        (rest : Result HandResult)
        → Evaluates rest
        → Evaluates (
            if same_ranks (counts_of items) (4 ∷ 1 ∷ [])
            then four_of cards items
            else if same_ranks (counts_of items) (3 ∷ 2 ∷ [])
            then full_of_ranks cards items
            else rest)
    counted-Evaluates rest h = elim (Bool-cases (same_ranks (counts_of items) (4 ∷ 1 ∷ []))) [
      | inl e ↦ rw e (four_of-Evaluates e)
      | inr e ↦ rw e (elim (Bool-cases (same_ranks (counts_of items) (3 ∷ 2 ∷ []))) [
        | inl f ↦ rw f (full_of_ranks-Evaluates f)
        | inr f ↦ rw f h
      ])
    ]

    classify-Evaluates :
        (flushed straightened : Bool)
        → Evaluates (classify cards top flushed straightened items (counts_of items))
    unfolding classify
    classify-Evaluates true true = elim (Bool-cases (top.rank == 14)) [
      | inl e ↦ rw e (_, refl, refl)
      | inr e ↦ rw e (_, refl, refl)
    ]
    classify-Evaluates true false = counted-Evaluates _ (_, refl, length-ranks_of cards ∙ five)
    classify-Evaluates false true = counted-Evaluates _ (_, refl, refl)
    classify-Evaluates false false = counted-Evaluates _ lower_hands-Evaluates

evaluate_sorted-Evaluates :
    (cards : List Card) → length cards ≡ 5 → Evaluates (evaluate_sorted cards)
unfolding evaluate_sorted
evaluate_sorted-Evaluates [] h = absurd (omega arith)
evaluate_sorted-Evaluates (c ∷ cards) h =
    classify-Evaluates (c ∷ cards) (counter_from [] (ranks_of (c ∷ cards))) c h
      (is_flush (c ∷ cards)) (is_straight (ranks_of (c ∷ cards)))

-- Five cards never raise, and the hand's rank fixes how many kickers it has.
pub evaluate_five_cards-Evaluates :
    (cards : List Card) → length cards ≡ 5 → Evaluates (evaluate_five_cards cards)
unfolding evaluate_five_cards
evaluate_five_cards-Evaluates cards h =
    rw h (evaluate_sorted-Evaluates (sort_cards cards) (length-sort_cards cards ∙ h))

-- Any other number of cards raises.
pub evaluate_five_cards-raise :
    (cards : List Card) → length cards ≢ 5 → evaluate_five_cards cards ≡ raise value_error
unfolding evaluate_five_cards
evaluate_five_cards-raise cards h = ground arith
