-- ===== src/Tutorial/Tool.antt =====
-- `hand_evaluator_tool` and `_score_from_rank_value` of
-- tutorial_agents/agent_with_tool/hand_evaluator_tool.py. The score is a number of ten-thousandths,
-- which is what `round(score, 4)` keeps of the quotient.
use adk_poker.Base.{ℕ, ◌+◌, ◌-◌, ◌*◌, ◌/◌, min, max, not, List, ◌==◌, if◌then◌else◌, length, Text}
use adk_poker.Result.{Result, ok, raise, value_error, or_raise, traverse, ◌>>=◌}
use adk_poker.Cards.{Card}
use adk_poker.Cards.Text.{card_text}
use adk_poker.Ranking.{HandRank, HandResult, rank_value}
use adk_poker.Tutorial.Parse.{parse_cards}
use adk_poker.Tutorial.Simple.{simple_evaluate, strength_text}

-- The numerator of `_score_from_rank_value`, over nine.
unfoldable pub score_ninths : ℕ → ℕ
score_ninths rank_value = max 1 (min rank_value 10) - 1

-- `round(score, 4)`: the nearest number of ten-thousandths. No ninth lies half way between two.
unfoldable pub rounded_score : ℕ → ℕ
rounded_score ninths = (ninths * 20000 + 9) / 18

-- The dict that the tool returns.
pub record Report : Type 0 where
  pub rank : HandRank
  pub value : ℕ
  pub strength_score : ℕ
  pub description : Text
  pub best_five_cards : List Text
  pub kickers : List ℕ
  pub your_cards : List Text
  pub community_cards : List Text

unfoldable pub report_of : List Card → List Card → HandResult → Result Report
unfolding card_text score_ninths rounded_score strength_text
report_of hole board hand = do
  best ← traverse card_text hand.cards
  yours ← traverse card_text hole
  community ← traverse card_text board
  ok (record {
    rank = hand.rank;
    value = rank_value hand.rank;
    strength_score = rounded_score (score_ninths (rank_value hand.rank));
    description = strength_text hand.rank;
    best_five_cards = best;
    kickers = hand.kickers;
    your_cards = yours;
    community_cards = community;
  })

-- `if len(hole) != 2: raise`
abbrev two_cards : List Card → Result (Unit {0})
two_cards hole = if not (length hole == 2) then raise value_error else ok tt

-- `hand_evaluator_tool`; a result `None` would raise at `result.rank`.
unfoldable pub hand_evaluator_tool : List Text → List Text → Result Report
unfolding parse_cards simple_evaluate report_of
hand_evaluator_tool your_cards community_cards = do
  hole ← parse_cards your_cards
  board ← parse_cards community_cards
  _ ← two_cards hole
  found ← simple_evaluate hole board
  hand ← or_raise found value_error
  report_of hole board hand
