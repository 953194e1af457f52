-- ===== src/Flop/Evaluate.antt =====
-- `evaluate_hand` of agents/team1_agent/flop_strategy_agent/tools/hand_evaluator.py, but for its
-- strength score, which is computed with floats.
use adk_poker.Base.{
  ℕ, ◌-◌, suc, zero, Bool, true, false, not, ◌&&◌, List, [], ◌∷◌, ◌++◌, map, ltb, leb, ◌==◌,
  if◌then◌else◌, length, Option, none, some, Text, codes,
}
use adk_poker.Result.{Result, ok, raise, value_error, traverse, ◌>>=◌}
use adk_poker.Evaluator.{combinations}
use adk_poker.Flop.Rank.{Letters, Details, parse_letters, rank_and_kickers}

-- `x > y` of two tuples.
unfoldable pub tuple_gt : List ℕ → List ℕ → Bool
tuple_gt [] ys = false
tuple_gt (x ∷ xs) [] = true
tuple_gt (x ∷ xs) (y ∷ ys) = let rest = tuple_gt xs ys in if x == y then rest else ltb y x

-- `(-1,) * n`; every entry of a score stands one higher here, so that -1 is 0.
abbrev pub unset : ℕ → List ℕ
unset zero = []
unset (suc n) = 0 ∷ unset n

-- `current_hand_score_padded`
unfoldable pub padded_score : Details → List ℕ
padded_score d =
    let score = map suc (d.hand_rank ∷ d.primary ∷ d.secondary ∷ d.kickers) in
    score ++ unset (7 - length score)

-- The best hand so far: `best_hand_details` and `best_hand_cards`.
pub record Best : Type 0 where
  pub details : Details
  pub cards : List Letters

-- `best_hand_score_padded`; before the first hand it is that of `(-1, -1, -1, [-1]*5)`.
unfoldable pub score_to_beat : Option Best → List ℕ
unfolding padded_score
score_to_beat none = unset 8
score_to_beat (some best) = padded_score best.details

-- The body of the loop, once the hand's details are there.
unfoldable pub keep_higher : Option Best → List Letters → Details → Option Best
unfolding tuple_gt padded_score score_to_beat
keep_higher best five d =
    if tuple_gt (padded_score d) (score_to_beat best)
    then some (record { details = d; cards = five })
    else best

-- `except ValueError: continue`
unfoldable pub one_turn : Option Best → List Letters → Result Details → Result (Option Best)
unfolding keep_higher
one_turn best five (ok d) = ok (keep_higher best five d)
one_turn best five (raise value_error) = ok best
one_turn best five (raise e) = raise e

-- The loop over the combinations.
unfoldable pub search_highest : List (List Letters) → Option Best → Result (Option Best)
unfolding one_turn rank_and_kickers
search_highest [] best = ok best
search_highest (five ∷ rest) best =
    one_turn best five (rank_and_kickers five) >>= search_highest rest

-- `HAND_RANKS` read backwards.
abbrev pub hand_name : ℕ → Text
hand_name n =
    if n == 0
    then codes "HIGH_CARD"
    else if n == 1
    then codes "ONE_PAIR"
    else if n == 2
    then codes "TWO_PAIR"
    else if n == 3
    then codes "THREE_OF_A_KIND"
    else if n == 4
    then codes "STRAIGHT"
    else if n == 5
    then codes "FLUSH"
    else if n == 6
    then codes "FULL_HOUSE"
    else if n == 7
    then codes "FOUR_OF_A_KIND"
    else codes "STRAIGHT_FLUSH"

pub record HandReport : Type 0 where
  pub name : Text
  pub hand_rank : ℕ
  pub best_5_cards : List Text
  pub details : Details

abbrev pub hand_report : Best → HandReport
hand_report best = record {
  name = hand_name best.details.hand_rank;
  hand_rank = best.details.hand_rank;
  best_5_cards = map (λ (c : Letters). c.rank ++ c.suit ∷ []) best.cards;
  details = best.details;
}

-- What is returned: `{"error": …}`, or the report.
pub data Reply : Type 0 where
  refused : Reply
  reported : HandReport → Reply

unfoldable pub reply_of : Option Best → Reply
reply_of none = refused
reply_of (some best) = reported (hand_report best)

-- `except ValueError as e: return {"error": str(e)}` around the parsing.
unfoldable pub reply_to : Result (List Letters) → Result Reply
unfolding search_highest combinations reply_of
reply_to (ok cards) = search_highest (combinations cards 5) none >>= λ best. ok (reply_of best)
reply_to (raise value_error) = ok refused
reply_to (raise e) = raise e

-- `evaluate_hand`, of lists.
unfoldable pub evaluate_flop_hand : List Text → List Text → Result Reply
unfolding reply_to parse_letters
evaluate_flop_hand hole community =
    if not (length hole == 2)
    then ok refused
    else if not (leb 3 (length community) && leb (length community) 5)
    then ok refused
    else reply_to (do
      parsed_hole ← traverse parse_letters hole
      parsed_community ← traverse parse_letters community
      ok (parsed_hole ++ parsed_community))
