-- ===== src/Preflop/Tests.antt =====
-- Team 1's pre-flop tools on concrete hands: agents/team1_agent/preflop/tools/.
use adk_poker.Base.{ℕ, ◌≡◌, refl, [], ◌∷◌, arith, none, codes}
use adk_poker.Result.{ok, Yields}
use adk_poker.Cards.{Suit, Card, clubs, spades}
use adk_poker.Cards.Text.{card_text}
use adk_poker.Preflop.Classify.{hand_notation, classify_hand, navy}
use adk_poker.Preflop.Suggest.{evaluate_preflop_action, three_bet}
use adk_poker.Preflop.Printed.{shorthand, hand_notation-shorthand}
use adk_poker.Preflop.Amounts.{Limited, evaluate_preflop_action-Limited}

abbrev card : ℕ → Suit → Card
card rank suit = record { rank = rank; suit = suit }

ten_king : hand_notation (codes " 10♣") (codes "Kc ") ≡ ok (codes "KTo")
unfolding hand_notation
ten_king = refl

-- Two suits without a rank count as the best hands do.
no_ranks :
    Yields (λ k. k.category ≡ navy) (classify_hand (codes "♠" ∷ codes "♥" ∷ []) (codes "BTN"))
unfolding classify_hand
no_ranks = (_, refl, refl)

-- The amount of a third bet is above the stack.
short_stack :
    Yields
      (λ s. (s.recommended_action ≡ three_bet) × (s.recommended_amount ≡ 60))
      (evaluate_preflop_action
        (codes "A♠" ∷ codes "A♥" ∷ [])
        (codes "SB")
        (codes "UTG: Raise 40" ∷ [])
        25
        25
        20
        none)
unfolding evaluate_preflop_action
short_stack = (_, refl, (refl, refl))

hand_notation-shorthand_example :
    hand_notation (codes "10♣") (codes "K♠") ≡ ok (shorthand (card 10 clubs) (card 13 spades))
unfolding card_text
hand_notation-shorthand_example =
    hand_notation-shorthand (card 10 clubs) (card 13 spades) (codes "10♣") (codes "K♠")
      (omega arith) (omega arith) (omega arith) (omega arith) refl refl

evaluate_preflop_action-Limited_example : Yields (Limited 500 40 20) (
    evaluate_preflop_action
      (codes "10♣" ∷ codes "K♠" ∷ [])
      (codes "BB")
      (codes "UTG: raise 40" ∷ [])
      500
      40
      20
      none)
unfolding card_text
evaluate_preflop_action-Limited_example =
    evaluate_preflop_action-Limited (card 10 clubs) (card 13 spades) (codes "10♣") (codes "K♠")
      (omega arith) (omega arith) (omega arith) (omega arith) refl refl (codes "BB")
      (codes "UTG: raise 40" ∷ []) 500 40 20 none
