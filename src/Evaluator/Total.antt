-- ===== src/Evaluator/Total.antt =====
-- `HandEvaluator.evaluate_hand` with any number of cards.
use adk_poker.Base.{
  ◌<◌, ◌≡◌, refl, inl, inr, List, [], ◌∷◌, ◌++◌, arith, ltb, length, Bool-cases, some,
}
use adk_poker.Result.{ok, first, ◌>>=◌}
use adk_poker.Cards.{Card}
use adk_poker.Ranking.{HandResult, high_card, high_card_of}
use adk_poker.Evaluator.{result, ranks_of, few_cards, sort_cards, evaluate_hand}
use adk_poker.Evaluator.Shape.{length-sort_cards}
use adk_poker.Evaluator.Best.{evaluate_hand-Best}

few_cards_total :
    (cards : List Card) → 0 < length cards → (r : HandResult) × (few_cards cards ≡ ok r)
unfolding few_cards
few_cards_total cards h = go (sort_cards cards) (omega (arith, length-sort_cards cards))
  where
    go :
        (sorted : List Card)
        → 0 < length sorted
        → (r : HandResult) × ((first sorted >>= λ top.
              result high_card sorted (ranks_of sorted) (high_card_of top))
            ≡ ok r)
    go [] h = absurd (omega arith)
    go (c ∷ sorted) h = (_, refl)

-- From one card up, hole or community, there is a hand: evaluate_hand neither raises nor returns
-- None.
pub evaluate_hand_total :
    (hole community : List Card)
    → 0 < length (hole ++ community)
    → (r : HandResult) × (evaluate_hand hole community ≡ ok (some r))
unfolding evaluate_hand
evaluate_hand_total hole community h = elim (Bool-cases (ltb (length (hole ++ community)) 5)) [
  | inl e ↦ let (r, k) = few_cards_total (hole ++ community) h in (r, rw e (rw k))
  | inr e ↦ let (r, k, _, _, _) = evaluate_hand-Best hole community (ground arith) in (r, k)
]
