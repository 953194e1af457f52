-- ===== src/Evaluator/Tests.antt =====
-- Hands evaluated by computation: poker/evaluator.py.
use adk_poker.Base.{ℕ, ◌≡◌, ◌+◌, ◌↔◌, ◌⊎◌, refl, arith, List, [], ◌∷◌, ◌++◌, some, true}
use adk_poker.Base.Int.{negsuc}
use adk_poker.Result.{ok, raise, value_error}
use adk_poker.Cards.{Suit, Card, hearts, clubs, spades}
use adk_poker.Ranking.{
  HandResult, royal_flush, full_house, one_pair, royal, full_of, compare_hands, hand_lt,
}
use adk_poker.Evaluator.{
  evaluate_five_cards, evaluate_hand, combinations, is_straight, wheel, sort_cards, is_flush,
}
use adk_poker.Evaluator.Order.{hand_lt-compare_hands}
use adk_poker.Evaluator.Shape.{evaluate_five_cards-raise}
use adk_poker.Evaluator.Best.{Best, evaluate_hand-Best}
use adk_poker.Evaluator.Wheel.{is_straight_iff, steel_wheel_is_royal}

abbrev card : ℕ → Suit → Card
card rank suit = record { rank = rank; suit = suit }

abbrev steel_wheel : List Card
steel_wheel = card 5 hearts ∷ card 14 hearts ∷ card 2 hearts ∷ card 4 hearts ∷ card 3 hearts ∷ []

steel_wheel_run :
    evaluate_five_cards steel_wheel
    ≡ ok (record {
      rank = royal_flush;
      cards = card 14 hearts ∷ card 5 hearts ∷ card 4 hearts ∷ card 3 hearts ∷ card 2 hearts ∷ [];
      kickers = 14 ∷ [];
      description = royal;
    })
unfolding evaluate_five_cards
steel_wheel_run = refl

seven_cards_run :
    evaluate_hand
      (card 9 clubs ∷ card 9 spades ∷ [])
      (card 2 clubs ∷ card 9 hearts ∷ card 4 spades ∷ card 2 spades ∷ card 13 clubs ∷ [])
    ≡ ok (
        some (record {
          rank = full_house;
          cards = card 9 clubs ∷ card 9 spades ∷ card 9 hearts ∷ card 2 clubs ∷ card 2 spades ∷ [];
          kickers = 9 ∷ 2 ∷ [];
          description = full_of 9 2;
        }))
unfolding evaluate_hand
seven_cards_run = refl

abbrev pair_with : List ℕ → HandResult
pair_with kickers = record { rank = one_pair; cards = []; kickers = kickers; description = royal }

abbrev eights : HandResult
eights = pair_with (8 ∷ 14 ∷ 5 ∷ 3 ∷ [])

abbrev nines : HandResult
nines = pair_with (9 ∷ 14 ∷ 5 ∷ 3 ∷ [])

hand_lt-compare_hands_example :
    (hand_lt eights nines ≡ true) ↔ (compare_hands eights nines ≡ negsuc 0)
hand_lt-compare_hands_example = hand_lt-compare_hands eights nines

abbrev tens : HandResult
tens = pair_with (10 ∷ 9 ∷ 5 ∷ 3 ∷ [])

evaluate_five_cards-raise_example : evaluate_five_cards (card 9 clubs ∷ []) ≡ raise value_error
evaluate_five_cards-raise_example =
    evaluate_five_cards-raise (card 9 clubs ∷ []) (λ h. omega (arith, h))

abbrev pocket : List Card
pocket = card 9 clubs ∷ card 9 spades ∷ []

abbrev board : List Card
board = card 2 clubs ∷ card 9 hearts ∷ card 4 spades ∷ card 2 spades ∷ card 13 clubs ∷ []

evaluate_hand-Best_example : Best (combinations (pocket ++ board) 5) (evaluate_hand pocket board)
evaluate_hand-Best_example = evaluate_hand-Best pocket board (omega arith)

is_straight_iff_example :
    (is_straight (9 ∷ 8 ∷ 7 ∷ 6 ∷ 5 ∷ []) ≡ true)
    ↔ (((8 + 1 ≡ 9) × (7 + 1 ≡ 8) × (6 + 1 ≡ 7) × (5 + 1 ≡ 6)) ⊎ (9 ∷ 8 ∷ 7 ∷ 6 ∷ 5 ∷ [] ≡ wheel))
is_straight_iff_example =
    is_straight_iff 9 8 7 6 5 (omega arith, (omega arith, (omega arith, (omega arith, tt))))

steel_wheel_is_royal_example :
    evaluate_five_cards steel_wheel
    ≡ ok (record {
      rank = royal_flush;
      cards = sort_cards steel_wheel;
      kickers = 14 ∷ [];
      description = royal;
    })
unfolding sort_cards is_flush
steel_wheel_is_royal_example = steel_wheel_is_royal steel_wheel refl refl refl
