-- ===== src/Flop/Outs.antt =====
-- The outs of straight draws: `analyze_draw_potential` of
-- agents/team1_agent/flop_strategy_agent/tools/draw_analyzer.py beside the test for a straight of
-- hand_evaluator.py.
use adk_poker.Base.{
  ℕ, ◌+◌, ◌*◌, ◌≤◌, ◌<◌, ◌≡◌, refl, Bool, true, List, [], ◌∷◌, arith, ◌==◌, length, sum_of, keep_if,
  every, every-contains, contains,
}
use adk_poker.Evaluator.{sort_desc}
use adk_poker.Flop.Rank.{is_run}
use adk_poker.Flop.Draws.{straight_draws, outs_of}

-- Four consecutive ranks.
abbrev pub four_from : ℕ → List ℕ
four_from low = low ∷ (low + 1) ∷ (low + 2) ∷ (low + 3) ∷ []

abbrev every_rank : List ℕ
every_rank = 0 ∷ 1 ∷ 2 ∷ 3 ∷ 4 ∷ 5 ∷ 6 ∷ 7 ∷ 8 ∷ 9 ∷ 10 ∷ 11 ∷ 12 ∷ []

-- The ranks that make a straight of the four.
unfoldable pub completing : ℕ → List ℕ
unfolding sort_desc
completing low = keep_if (λ r. is_run (sort_desc (r ∷ four_from low))) every_rank

abbrev counts_well : ℕ → Bool
counts_well low = sum_of outs_of (straight_draws (four_from low)) == 4 * length (completing low)

lows : List ℕ
lows = 1 ∷ 2 ∷ 3 ∷ 4 ∷ 5 ∷ 6 ∷ 7 ∷ 8 ∷ 9 ∷ []

lows_count : every counts_well lows ≡ true
unfolding completing straight_draws lows
lows_count = refl

low_is_there : (low : ℕ) → 0 < low → low ≤ 9 → contains low lows ≡ true
unfolding lows
low_is_there low h k = ground arith

-- For four consecutive ranks from the three to the ace, the outs that are added up are four for
-- each rank that makes a straight of the four by the test of hand_evaluator.py.
pub straight_draws-completing :
    (low : ℕ)
    → 0 < low
    → low ≤ 9
    → sum_of outs_of (straight_draws (four_from low)) ≡ 4 * length (completing low)
straight_draws-completing low h k =
    let e : counts_well low ≡ true =
      every-contains counts_well lows low lows_count (low_is_there low h k) in
    ground (arith, e)
