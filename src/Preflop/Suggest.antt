-- ===== src/Preflop/Suggest.antt =====
-- What to do before the flop: agents/team1_agent/preflop/tools/position_analyzer.py and
-- action_evaluator.py. Scores are in tenths, to which the code rounds them; a product of a category
-- score and a multiplier is a whole number of tenths. A returned dict with the key "error" is a
-- `raise`. The debug output is left out.
use adk_poker.Base.{
  ℕ, ◌+◌, ◌*◌, min, List, [], ◌∷◌, map, leb, ◌==◌, if◌then◌else◌, Option, none, some, Text, codes,
  to_lower, occurs_in, text_lookup, is_empty,
}
use adk_poker.Result.{Result, ok, ◌>>=◌}
use adk_poker.Preflop.Classify.{HandClass, classify_hand}

-- `position_multiplier`, in tenths
abbrev pub position_multiplier : List (Text × ℕ)
position_multiplier =
    (codes "UTG", 10)
    ∷ (codes "CO", 11)
    ∷ (codes "BTN", 12)
    ∷ (codes "SB", 10)
    ∷ (codes "BB", 11)
    ∷ []

-- `position_multiplier.get(position, 0.9)`
abbrev pub multiplier_of : Text → ℕ
multiplier_of position = elim (text_lookup position position_multiplier) [ none ↦ 9 | some m ↦ m ]

pub record PositionValue : Type 0 where
  pub hand_class : HandClass
  pub multiplier : ℕ
  pub adjusted_score : ℕ
  pub recommendation : Text

unfoldable pub recommend : ℕ → Text
recommend adjusted_score =
    if leb 50 adjusted_score
    then codes "レイズ or 3bet or 4bet"
    else if leb 40 adjusted_score
    then codes "レイズ or 3bet"
    else if leb 10 adjusted_score
    then codes "レイズ"
    else codes "フォールド推奨"

-- `analyze_preflop_position_value`
unfoldable pub analyze_position : List Text → Text → Result PositionValue
unfolding classify_hand recommend
analyze_position hole_cards position = do
  hand_class ← classify_hand hole_cards position
  let adjusted_score = hand_class.score * multiplier_of position
  ok (record {
    hand_class = hand_class;
    multiplier = multiplier_of position;
    adjusted_score = adjusted_score;
    recommendation = recommend adjusted_score;
  })

-- The keys of `hand_classification` that are read.
pub record Known : Type 0 where
  pub category_score : Option ℕ
  pub position : Option Text

-- `hand_classification.get("position", position) or position`
abbrev position_for : Option Text → Text → Text
position_for none position = position
position_for (some p) position = if is_empty p then position else p

unfoldable pub adjusted : Option Known → List Text → Text → Result ℕ
unfolding analyze_position
adjusted (some known) hole_cards position = ok (
    elim known.category_score [ none ↦ 0 | some s ↦ s ]
    * multiplier_of (position_for known.position position))
adjusted none hole_cards position = do
  value ← analyze_position hole_cards position
  ok value.adjusted_score

-- `sum(1 for a in action_before_you if "raise" in a.lower())`
unfoldable pub count_raises : List Text → ℕ
count_raises [] = 0
count_raises (a ∷ actions) =
    let rest = count_raises actions in
    if occurs_in (codes "raise") (map to_lower a) then 1 + rest else rest

pub data Move : Type 0 where
  fold call raise_open three_bet four_bet : Move

-- The recommended action and amount.
unfoldable pub suggest : ℕ → ℕ → ℕ → ℕ → ℕ → Move × ℕ
suggest raise_count adj_score your_stack to_call blind_size =
    if leb 4 raise_count
    then (if leb 55 adj_score then (call, min your_stack to_call) else (fold, 0))
    else if raise_count == 3
    then (if leb 50 adj_score then (call, min your_stack to_call) else (fold, 0))
    else if raise_count == 2
    then (if leb 50 adj_score then (four_bet, min (blind_size * 10) your_stack) else (fold, 0))
    else if raise_count == 1
    then (if leb 35 adj_score
        then (three_bet, blind_size * 3)
        else if leb 10 adj_score
        then (call, to_call)
        else (fold, 0))
    else (if leb 10 adj_score then (raise_open, blind_size * 3) else (fold, 0))

pub record Suggestion : Type 0 where
  pub strength_score : ℕ
  pub prior_raises : ℕ
  pub recommended_action : Move
  pub recommended_amount : ℕ

-- The answer, once the score is known.
unfoldable pub suggestion : List Text → ℕ → ℕ → ℕ → ℕ → Suggestion
unfolding count_raises suggest
suggestion actions your_stack to_call blind_size adj_score =
    let raise_count = count_raises actions in
    let chosen = suggest raise_count adj_score your_stack to_call blind_size in
    record {
      strength_score = adj_score;
      prior_raises = raise_count;
      recommended_action = chosen.0;
      recommended_amount = chosen.1;
    }

-- `evaluate_preflop_action`; no earlier actions are an empty list.
unfoldable pub evaluate_preflop_action :
    List Text → Text → List Text → ℕ → ℕ → ℕ → Option Known → Result Suggestion
unfolding adjusted suggestion
evaluate_preflop_action hole_cards position action_before_you your_stack to_call blind_size known =
    do
      adj_score ← adjusted known hole_cards position
      ok (suggestion action_before_you your_stack to_call blind_size adj_score)
