-- ===== src/Tutorial/Simple.antt =====
-- `SimpleHandEvaluator` of tutorial_agents/agent_with_tool/hand_evaluator_tool.py. Its classes Card,
-- Suit, HandRank and HandResult are those of poker/ once more, and are not written out twice; nor
-- are the branches of `_eval_five` whose text is that of `_evaluate_five_cards`.
use adk_poker.Base.{
  ℕ, Bool, ◌&&◌, ◌||◌, not, List, [], ◌∷◌, ◌++◌, ltb, ◌==◌, if◌then◌else◌, length, Option, none,
  some, contains, every, Text, codes,
}
use adk_poker.Result.{Result, ok, raise, value_error, ◌>>=◌, first}
use adk_poker.Cards.{Card}
use adk_poker.Ranking.{
  HandRank, HandResult, royal_flush, straight_flush, four_of_a_kind, full_house, flush, straight,
  three_of_a_kind, two_pair, one_pair, high_card, royal, straight_flush_high, flush_high,
  high_card_of, straight_high, rank_value, hand_lt, same_ranks,
}
use adk_poker.Evaluator.{
  sort_cards, ranks_of, counter_from, counts_of, is_flush, is_straight, result, high_of, four_of,
  full_of_ranks, lower_hands, combinations,
}

-- `set(xs) == set(ys)`
abbrev pub same_set : List ℕ → List ℕ → Bool
same_set xs ys = every (λ x. contains x ys) xs && every (λ y. contains y xs) ys

abbrev pub royal_ranks : List ℕ
royal_ranks = 10 ∷ 11 ∷ 12 ∷ 13 ∷ 14 ∷ []

-- The tests of `_eval_five` in their order, on the sorted cards.
unfoldable pub eval_shape :
    List Card → Card → Bool → Bool → List (ℕ × ℕ) → List ℕ → Result HandResult
unfolding four_of full_of_ranks lower_hands
eval_shape cards top flushed straightened items counts =
    if flushed && straightened && top.rank == 14 && same_set (ranks_of cards) royal_ranks
    then result royal_flush cards (14 ∷ []) royal
    else if flushed && straightened
    then result straight_flush cards (high_of top.rank (ranks_of cards) ∷ [])
        (straight_flush_high top)
    else if same_ranks counts (4 ∷ 1 ∷ [])
    then four_of cards items
    else if same_ranks counts (3 ∷ 2 ∷ [])
    then full_of_ranks cards items
    else if flushed
    then result flush cards (ranks_of cards) (flush_high top)
    else if straightened
    then result straight cards (high_of top.rank (ranks_of cards) ∷ [])
        (straight_high (high_of top.rank (ranks_of cards)))
    else lower_hands cards top items counts

unfoldable pub eval_sorted : List Card → Result HandResult
unfolding eval_shape counter_from counts_of is_flush is_straight
eval_sorted cards = do
  top ← first cards
  eval_shape cards top (is_flush cards) (is_straight (ranks_of cards))
      (counter_from [] (ranks_of cards)) (counts_of (counter_from [] (ranks_of cards)))

-- `SimpleHandEvaluator._eval_five`
unfoldable pub eval_five : List Card → Result HandResult
unfolding eval_sorted sort_cards
eval_five cards =
    if not (length cards == 5) then raise value_error else eval_sorted (sort_cards cards)

-- The test of the loop of `evaluate_hand`.
abbrev pub replacing : HandResult → HandResult → Bool
replacing best hr =
    ltb (rank_value best.rank) (rank_value hr.rank)
    || (rank_value hr.rank == rank_value best.rank && not (hand_lt hr best))

-- One turn of the loop.
unfoldable pub keep_better : Option HandResult → HandResult → HandResult
unfolding hand_lt
keep_better none hr = hr
keep_better (some best) hr = if replacing best hr then hr else best

unfoldable pub search_best : List (List Card) → Option HandResult → Result (Option HandResult)
unfolding keep_better eval_five
search_best [] best = ok best
search_best (five ∷ rest) best = do
  hr ← eval_five five
  search_best rest (some (keep_better best hr))

-- Fewer than five cards.
unfoldable pub few_high : List Card → Result HandResult
unfolding sort_cards
few_high cards = do
  top ← first (sort_cards cards)
  result high_card (sort_cards cards) (ranks_of (sort_cards cards)) (high_card_of top)

-- `SimpleHandEvaluator.evaluate_hand`
unfoldable pub simple_evaluate : List Card → List Card → Result (Option HandResult)
unfolding few_high search_best combinations
simple_evaluate hole community =
    if ltb (length (hole ++ community)) 5
    then (few_high (hole ++ community) >>= λ hand. ok (some hand))
    else search_best (combinations (hole ++ community) 5) none

-- `SimpleHandEvaluator.get_hand_strength_description`
unfoldable pub strength_text : HandRank → Text
strength_text royal_flush = codes "ロイヤルフラッシュ"
strength_text straight_flush = codes "ストレートフラッシュ"
strength_text four_of_a_kind = codes "フォーカード"
strength_text full_house = codes "フルハウス"
strength_text flush = codes "フラッシュ"
strength_text straight = codes "ストレート"
strength_text three_of_a_kind = codes "スリーカード"
strength_text two_pair = codes "ツーペア"
strength_text one_pair = codes "ワンペア"
strength_text high_card = codes "ハイカード"
