-- ===== src/Flop/Draws.antt =====
-- agents/team1_agent/flop_strategy_agent/tools/draw_analyzer.py. The set `all_outs` is filled but
-- never read; it is left out.
use adk_poker.Base.{
  ℕ, ◌+◌, ◌-◌, ◌||◌, List, [], ◌∷◌, ◌++◌, map, ltb, ◌==◌, if◌then◌else◌, length, sum_of, Text,
  last_of, drop_last, to_lower,
}
use adk_poker.Result.{Result, ok, raise, index_error, traverse, ◌>>=◌}
use adk_poker.Evaluator.{sort_desc, distinct, counter_from}
use adk_poker.Flop.Rank.{Letters, rank_letter, index_of_rank}

-- `_parse_card` of this file, which accepts any two letters.
unfoldable pub split_letters : Text → Result Letters
split_letters [] = raise index_error
split_letters (c ∷ s) =
    ok (record { rank = rank_letter (drop_last (c ∷ s)); suit = to_lower (last_of c s) })

pub data Draw : Type 0 where
  flush_draw : Draw
  oesd : ℕ → Draw

-- `d['outs']`
abbrev pub outs_of : Draw → ℕ
outs_of flush_draw = 9
outs_of (oesd outs) = outs

-- The loop over `suit_counts.items()`.
unfoldable pub flush_draws : List (ℕ × ℕ) → List Draw
flush_draws [] = []
flush_draws ((suit, count) ∷ items) =
    let rest = flush_draws items in if count == 4 then flush_draw ∷ rest else rest

-- The outs of four consecutive ranks: one rank below, one above.
abbrev pub open_outs : ℕ → ℕ → ℕ
open_outs low_end high_end = (if ltb 0 low_end then 4 else 0) + (if ltb high_end 12 then 4 else 0)

abbrev pub window_draw : ℕ → ℕ → List Draw
window_draw low_end high_end =
    if high_end - low_end == 3
    then if ltb 0 (open_outs low_end high_end) then oesd (open_outs low_end high_end) ∷ [] else []
    else []

-- The loop over the windows of four of the sorted ranks; a window cut short by the end is no draw.
unfoldable pub straight_draws : List ℕ → List Draw
straight_draws (a ∷ b ∷ c ∷ d ∷ ranks) = window_draw a d ++ straight_draws (b ∷ c ∷ d ∷ ranks)
straight_draws _ = []

-- `sorted(list(set(…)))`
abbrev pub ascending : List ℕ → List ℕ
ascending [] = []
ascending (x ∷ xs) = ascending xs ++ x ∷ []

pub record Potential : Type 0 where
  pub draws : List Draw
  pub total_outs : ℕ

abbrev pub potential : List Draw → Potential
potential draws = record { draws = draws; total_outs = sum_of outs_of draws }

-- What is done with the parsed cards.
unfoldable pub draws_among : List Letters → Result (List Draw)
unfolding index_of_rank flush_draws straight_draws sort_desc distinct counter_from
draws_among cards = do
  indices ← traverse (λ (c : Letters). index_of_rank c.rank) cards
  ok (
      flush_draws (counter_from [] (map (λ (c : Letters). c.suit) cards))
      ++ straight_draws (ascending (sort_desc (distinct indices))))

-- `analyze_draw_potential`
unfoldable pub analyze_draw_potential : List Text → List Text → Result Potential
unfolding split_letters draws_among
analyze_draw_potential hole community =
    if ltb (length (hole ++ community)) 4 || ltb 6 (length (hole ++ community))
    then ok (potential [])
    else do
      cards ← traverse split_letters (hole ++ community)
      draws ← draws_among cards
      ok (potential draws)
