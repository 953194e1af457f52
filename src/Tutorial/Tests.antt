-- ===== src/Tutorial/Tests.antt =====
-- The tutorial's tool on concrete texts: tutorial_agents/agent_with_tool/hand_evaluator_tool.py.
use adk_poker.Base.{
  ℕ, ◌*◌, ◌+◌, ◌≤◌, ◌<◌, ◌≡◌, refl, inl, List, [], ◌∷◌, arith, Text, codes, if◌then◌else◌, some,
}
use adk_poker.Result.{ok, raise, value_error, Yields}
use adk_poker.Cards.{Suit, Card, hearts, diamonds, clubs, spades}
use adk_poker.Cards.Text.{card_text}
use adk_poker.Ranking.{HandResult, high_card, straight_flush}
use adk_poker.Evaluator.{evaluate_hand, evaluate_five_cards, sort_cards, combinations, is_flush}
use adk_poker.Tutorial.Parse.{parse_card}
use adk_poker.Tutorial.Simple.{eval_five, simple_evaluate}
use adk_poker.Tutorial.Tool.{hand_evaluator_tool, score_ninths}
use adk_poker.Tutorial.RoundTrip.{parse_card-card_text}
use adk_poker.Tutorial.Agrees.{
  is_steel_wheel, five_high_flush, eval_five-compared, simple_evaluate-evaluate_hand,
}
use adk_poker.Tutorial.Reports.{
  Tells, hand_evaluator_tool-Tells, hand_evaluator_tool_refused, score, score-bounds,
}

abbrev card : ℕ → Suit → Card
card rank suit = record { rank = rank; suit = suit }

spaced : parse_card (codes " 0 a S ") ≡ ok (card 14 spades)
unfolding parse_card
spaced = refl

ascii : parse_card (codes " 1 0 D ") ≡ ok (card 10 diamonds)
unfolding parse_card
ascii = refl

leading_zero : parse_card (codes "09♡") ≡ ok (card 9 hearts)
unfolding parse_card
leading_zero = refl

no_rank : parse_card (codes "♠") ≡ raise value_error
unfolding parse_card
no_rank = refl

parse_card-card_text_example :
    Yields (λ text. parse_card text ≡ ok (card 10 clubs)) (card_text (card 10 clubs))
parse_card-card_text_example = parse_card-card_text (card 10 clubs) (omega arith, omega arith)

abbrev hole : List Card
hole = card 14 hearts ∷ card 10 clubs ∷ []

abbrev hole_texts : List Text
hole_texts = codes "A♥" ∷ codes "10♣" ∷ []

abbrev board : List Card
board = card 10 hearts ∷ card 7 spades ∷ card 2 diamonds ∷ []

abbrev board_texts : List Text
board_texts = codes "10♥" ∷ codes "7♠" ∷ codes "2♦" ∷ []

hand_evaluator_tool-Tells_example :
    (hand : HandResult) × (simple_evaluate hole board ≡ ok (some hand))
    × Yields (Tells hand hole_texts board_texts) (hand_evaluator_tool hole_texts board_texts)
unfolding card_text
hand_evaluator_tool-Tells_example =
    hand_evaluator_tool-Tells hole board hole_texts board_texts
      ((omega arith, omega arith), ((omega arith, omega arith), tt))
      ((omega arith, omega arith), ((omega arith, omega arith), ((omega arith, omega arith), tt)))
      (refl, (refl, tt)) (refl, (refl, (refl, tt))) refl refl refl

hand_evaluator_tool_refused_example :
    hand_evaluator_tool (codes "A♥" ∷ []) board_texts ≡ raise value_error
unfolding card_text
hand_evaluator_tool_refused_example =
    hand_evaluator_tool_refused (card 14 hearts ∷ []) board (codes "A♥" ∷ []) board_texts
      ((omega arith, omega arith), tt)
      ((omega arith, omega arith), ((omega arith, omega arith), ((omega arith, omega arith), tt)))
      (refl, tt) (refl, (refl, (refl, tt))) (inl λ h. omega (arith, h))

-- One card may be in the hand and on the board.
shared_card : Yields (λ r. r.rank ≡ high_card) (hand_evaluator_tool hole_texts (codes "A♥" ∷ []))
unfolding hand_evaluator_tool
shared_card = (_, refl, refl)

abbrev steel_wheel : List Card
steel_wheel = card 5 hearts ∷ card 14 hearts ∷ card 2 hearts ∷ card 4 hearts ∷ card 3 hearts ∷ []

steel_wheel_run : Yields (λ r. r.rank ≡ straight_flush) (eval_five steel_wheel)
unfolding eval_five
steel_wheel_run = (_, refl, refl)

eval_five-compared_example : eval_five steel_wheel ≡ (
    if is_steel_wheel (sort_cards steel_wheel)
    then five_high_flush (sort_cards steel_wheel)
    else evaluate_five_cards steel_wheel)
eval_five-compared_example = eval_five-compared steel_wheel

simple_evaluate-evaluate_hand_example : simple_evaluate hole board ≡ evaluate_hand hole board
unfolding combinations is_flush sort_cards
simple_evaluate-evaluate_hand_example = simple_evaluate-evaluate_hand hole board (refl, tt)

score-bounds_example :
    (score 4 ≤ 10000)
    × (20000 * score_ninths 4 ≤ 18 * score 4 + 9)
    × (18 * score 4 ≤ 20000 * score_ninths 4 + 9)
    × (4 ≤ 9 → score 4 ≤ score 9)
    × (1 ≤ 4 → 4 < 9 → 9 ≤ 10 → score 4 < score 9)
score-bounds_example = score-bounds 4 9
