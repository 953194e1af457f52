-- ===== src/Flop/Agrees.antt =====
-- `_get_hand_rank_and_kickers` of
-- agents/team1_agent/flop_strategy_agent/tools/hand_evaluator.py beside `_evaluate_five_cards` of
-- poker/evaluator.py.
use adk_poker.Base.{
  ℕ, suc, ◌-◌, ◌≡◌, refl, ap, ◌∙◌, sym, true, List, [], ◌∷◌, map, arith, ◌==◌, length, length-map,
  All,
}
use mathlib.Core.Path.{subst}
use adk_poker.Result.{ok, traverse}
use adk_poker.Cards.{Card}
use adk_poker.Ranking.{HandResult}
use adk_poker.Evaluator.{
  evaluate_five_cards, evaluate_sorted, sort_cards, sort_desc, ranks_of, is_flush, is_straight,
  counter_from, counts_of, distinct,
}
use adk_poker.Evaluator.Shape.{
  length-sort_cards, length-ranks_of, length-sort_desc, evaluate_five_cards-Evaluates,
}
use adk_poker.Tutorial.RoundTrip.{IsCard}
use adk_poker.Tutorial.Royal.{Descends, sort_cards-Descends}
use adk_poker.Flop.Rank.{
  Letters, Details, index_of_rank, is_run, ace_low, details_of, rank_and_kickers,
}
use adk_poker.Flop.Total.{rank_and_kickers-Succeeds}
use adk_poker.Flop.Printed.{suit_char, letters_of, letters_of-index, letters_of-HasIndex}
use adk_poker.Flop.Suits.{suit_chars, one_suit-is_flush}
use adk_poker.Flop.Runs.{indices_of, raised-sort_desc, is_run-is_straight}
use adk_poker.Flop.Counts.{counts_of-raised, counts_of-ace_low, counts_of-partition, is_partition}
use adk_poker.Flop.Category.{value_of, value_from, classify-Valued}
use adk_poker.Flop.Ranked.{rank_from, lead, details_of-Ranks, value_from-rank_from}

-- The counts of a hand's ranks.
abbrev counts_in : List ℕ → List ℕ
counts_in ranks = counts_of (counter_from [] ranks)

-- The value that the program's evaluator gives.
evaluate_sorted-value :
    (sorted : List Card) (r : HandResult)
    → evaluate_sorted sorted ≡ ok r
    → value_of r
      ≡ value_from (is_flush sorted) (is_straight (ranks_of sorted)) (counts_in (ranks_of sorted))
unfolding evaluate_sorted
evaluate_sorted-value [] r e = cc
evaluate_sorted-value (c ∷ cards) r e =
    classify-Valued (c ∷ cards) (counter_from [] (ranks_of (c ∷ cards))) c (is_flush (c ∷ cards))
      (is_straight (ranks_of (c ∷ cards))) (counts_in (ranks_of (c ∷ cards))) r e

indices-letters_of :
    (cards : List Card)
    → All IsCard cards
    → traverse (λ (c : Letters). index_of_rank c.rank) (map letters_of cards)
      ≡ ok (indices_of cards)
indices-letters_of [] h = refl
indices-letters_of (c ∷ cards) h = rw (letters_of-index c h.0, indices-letters_of cards h.1)

suits-letters_of :
    (cards : List Card) → map (λ (c : Letters). c.suit) (map letters_of cards) ≡ suit_chars cards
suits-letters_of [] = refl
suits-letters_of (c ∷ cards) = ap (◌∷◌ (suit_char c.suit)) (suits-letters_of cards)

-- What the flop tools do with the letters of five cards.
rank_and_kickers-letters_of :
    (c : Card) (cards : List Card)
    → length (c ∷ cards) ≡ 5
    → All IsCard (c ∷ cards)
    → rank_and_kickers (map letters_of (c ∷ cards))
      ≡ details_of
          (is_flush (sort_cards (c ∷ cards)))
          (is_run (sort_desc (indices_of (c ∷ cards))))
          (ace_low (sort_desc (indices_of (c ∷ cards))))
unfolding rank_and_kickers
rank_and_kickers-letters_of c cards five h =
    let n = length-map letters_of (c ∷ cards) ∙ five in
    let suits = ap (λ l. length (distinct l) == 1) (suits-letters_of (c ∷ cards)) in
    rw (n, indices-letters_of (c ∷ cards) h, suits, one_suit-is_flush c cards)

abbrev indices : List Card → List ℕ
indices cards = sort_desc (indices_of cards)

module _ (cards : List Card) (five : length cards ≡ 5) (h : All IsCard cards) where
  five_indices : length (indices cards) ≡ 5
  five_indices =
      length-sort_desc (indices_of cards) ∙ length-map (λ (c : Card). c.rank - 2) cards ∙ five

  run-straight : is_run (indices cards) ≡ is_straight (ranks_of (sort_cards cards))
  run-straight =
      is_run-is_straight (indices cards) five_indices
        (subst Descends (sym (raised-sort_desc cards h)) (sort_cards-Descends cards))
      ∙ ap is_straight (raised-sort_desc cards h)

  counts-ace_low : counts_in (ace_low (indices cards)) ≡ counts_in (ranks_of (sort_cards cards))
  counts-ace_low =
      counts_of-ace_low (indices cards)
      ∙ sym (counts_of-raised (indices cards))
      ∙ ap counts_in (raised-sort_desc cards h)

  partition : is_partition (counts_in (ranks_of (sort_cards cards))) ≡ true
  partition =
      counts_of-partition (ranks_of (sort_cards cards))
        (length-ranks_of (sort_cards cards) ∙ length-sort_cards cards ∙ five)

-- The rank of the details, from the program's tests.
details-rank :
    (c : Card) (cards : List Card)
    → length (c ∷ cards) ≡ 5
    → All IsCard (c ∷ cards)
    → (d : Details) → rank_and_kickers (map letters_of (c ∷ cards)) ≡ ok d
    → suc d.hand_rank
      ≡ value_from
          (is_flush (sort_cards (c ∷ cards)))
          (is_straight (ranks_of (sort_cards (c ∷ cards))))
          (counts_in (ranks_of (sort_cards (c ∷ cards))))
details-rank c cards five h d e =
    let fl = is_flush (sort_cards (c ∷ cards)) in
    let st = is_straight (ranks_of (sort_cards (c ∷ cards))) in
    let xs = indices (c ∷ cards) in
    let k = counts-ace_low (c ∷ cards) five h in
    let run = sym (rank_and_kickers-letters_of c cards five h) ∙ e in
    let rank = details_of-Ranks fl (is_run xs) (ace_low xs) d run in
    ap suc rank
    ∙ ap (λ b. suc (rank_from fl b (counts_in (ace_low xs)) (lead (counts_in (ace_low xs)))))
        (run-straight (c ∷ cards) five h)
    ∙ ap (λ l. suc (rank_from fl st l (lead l))) k
    ∙ sym (
        value_from-rank_from fl st (counts_in (ranks_of (sort_cards (c ∷ cards))))
          (partition (c ∷ cards) five h))

-- Any five cards have one rank by both evaluators: neither raises, and the rank of the flop tools is
-- one less than the value of the program's rank, where the royal flush counts as the straight flush
-- that it is.
pub rank_and_kickers-evaluate_five_cards :
    (cards : List Card)
    → length cards ≡ 5
    → All IsCard cards
    → (r : HandResult) × (d : Details) × (evaluate_five_cards cards ≡ ok r)
      × (rank_and_kickers (map letters_of cards) ≡ ok d)
      × (suc d.hand_rank ≡ value_of r)
unfolding evaluate_five_cards
rank_and_kickers-evaluate_five_cards [] five h = absurd (omega arith)
rank_and_kickers-evaluate_five_cards (c ∷ cards) five h =
    let (r, e, _) = evaluate_five_cards-Evaluates (c ∷ cards) five in
    let (d, e') =
      rank_and_kickers-Succeeds (map letters_of (c ∷ cards))
        (length-map letters_of (c ∷ cards) ∙ five) (letters_of-HasIndex (c ∷ cards) h) in
    let sorted : evaluate_sorted (sort_cards (c ∷ cards)) ≡ ok r = rw five at e in
    (
      r,
      d,
      e,
      e',
      details-rank c cards five h d e'
          ∙ sym (evaluate_sorted-value (sort_cards (c ∷ cards)) r sorted),
    )
