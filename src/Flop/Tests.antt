-- ===== src/Flop/Tests.antt =====
-- Team 1's tools for the flop on concrete cards:
-- agents/team1_agent/flop_strategy_agent/tools/.
use adk_poker.Base.{ℕ, suc, ◌*◌, ◌≡◌, refl, [], ◌∷◌, ◌++◌, map, arith, length, sum_of, some, codes}
use adk_poker.Result.{ok, raise, key_error, Yields}
use adk_poker.Cards.{Suit, Card, hearts, diamonds, clubs, spades}
use adk_poker.Cards.Text.{card_text}
use adk_poker.Ranking.{HandResult}
use adk_poker.Evaluator.{combinations, evaluate_hand}
use adk_poker.Flop.Evaluate.{Best, HandReport, refused, reported, hand_report, evaluate_flop_hand}
use adk_poker.Flop.Highest.{IsHighest}
use adk_poker.Flop.Printed.{letters_of, evaluate_flop_hand-IsHighest}
use adk_poker.Flop.Category.{value_of}
use adk_poker.Flop.Hands.{evaluate_flop_hand-evaluate_hand}
use adk_poker.Flop.Draws.{analyze_draw_potential, straight_draws, outs_of, oesd, flush_draw}
use adk_poker.Flop.Outs.{four_from, completing, straight_draws-completing}

abbrev card : ℕ → Suit → Card
card rank suit = record { rank = rank; suit = suit }

-- A suit without a rank passes for a card, and its rank has no index.
no_rank :
    evaluate_flop_hand (codes "s" ∷ codes "Kd" ∷ []) (codes "2c" ∷ codes "3c" ∷ codes "4c" ∷ [])
    ≡ raise key_error
unfolding evaluate_flop_hand
no_rank = refl

one_card : evaluate_flop_hand (codes "As" ∷ []) [] ≡ ok refused
unfolding evaluate_flop_hand
one_card = refl

-- A straight that is already made is two draws.
made_straight :
    Yields
      (λ p. p.draws ≡ oesd 8 ∷ oesd 8 ∷ [])
      (analyze_draw_potential
        (codes "5s" ∷ codes "6d" ∷ [])
        (codes "7c" ∷ codes "8c" ∷ codes "9h" ∷ []))
unfolding analyze_draw_potential
made_straight = (_, refl, refl)

-- An ace would complete the four lowest ranks too.
low_four : (sum_of outs_of (straight_draws (four_from 0)) ≡ 4) × (completing 0 ≡ 4 ∷ 12 ∷ [])
unfolding completing straight_draws
low_four = (refl, refl)

four_spades :
    Yields
      (λ p. (p.draws ≡ flush_draw ∷ []) × (p.total_outs ≡ 9))
      (analyze_draw_potential
        (codes "As" ∷ codes "Ks" ∷ [])
        (codes "2s" ∷ codes "7s" ∷ codes "9h" ∷ []))
unfolding analyze_draw_potential
four_spades = (_, refl, (refl, refl))

evaluate_flop_hand-IsHighest_example :
    (best : Best) × (evaluate_flop_hand
        (codes "A♠" ∷ codes "K♦" ∷ [])
        (codes "10♥" ∷ codes "A♦" ∷ codes "2♣" ∷ [])
      ≡ ok (reported (hand_report best)))
    × IsHighest
        (combinations
          (map letters_of (card 14 spades ∷ card 13 diamonds ∷ [])
            ++ map letters_of (card 10 hearts ∷ card 14 diamonds ∷ card 2 clubs ∷ []))
          5)
        best
unfolding card_text
evaluate_flop_hand-IsHighest_example =
    evaluate_flop_hand-IsHighest (card 14 spades ∷ card 13 diamonds ∷ [])
      (card 10 hearts ∷ card 14 diamonds ∷ card 2 clubs ∷ []) (codes "A♠" ∷ codes "K♦" ∷ [])
      (codes "10♥" ∷ codes "A♦" ∷ codes "2♣" ∷ [])
      ((omega arith, omega arith), ((omega arith, omega arith), tt))
      ((omega arith, omega arith), ((omega arith, omega arith), ((omega arith, omega arith), tt)))
      (refl, (refl, tt)) (refl, (refl, (refl, tt))) refl (omega arith) (omega arith)

evaluate_flop_hand-evaluate_hand_example :
    (report : HandReport) × (r : HandResult) × (evaluate_flop_hand
        (codes "A♠" ∷ codes "K♦" ∷ [])
        (codes "10♥" ∷ codes "A♦" ∷ codes "2♣" ∷ [])
      ≡ ok (reported report))
    × (evaluate_hand
          (card 14 spades ∷ card 13 diamonds ∷ [])
          (card 10 hearts ∷ card 14 diamonds ∷ card 2 clubs ∷ [])
        ≡ ok (some r))
    × (suc report.hand_rank ≡ value_of r)
unfolding card_text
evaluate_flop_hand-evaluate_hand_example =
    evaluate_flop_hand-evaluate_hand (card 14 spades ∷ card 13 diamonds ∷ [])
      (card 10 hearts ∷ card 14 diamonds ∷ card 2 clubs ∷ []) (codes "A♠" ∷ codes "K♦" ∷ [])
      (codes "10♥" ∷ codes "A♦" ∷ codes "2♣" ∷ [])
      ((omega arith, omega arith), ((omega arith, omega arith), tt))
      ((omega arith, omega arith), ((omega arith, omega arith), ((omega arith, omega arith), tt)))
      (refl, (refl, tt)) (refl, (refl, (refl, tt))) refl (omega arith) (omega arith)

straight_draws-completing_example :
    sum_of outs_of (straight_draws (four_from 5)) ≡ 4 * length (completing 5)
straight_draws-completing_example = straight_draws-completing 5 (omega arith) (omega arith)
