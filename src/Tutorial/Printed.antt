-- ===== src/Tutorial/Printed.antt =====
-- The cards of a result of `SimpleHandEvaluator`, which `hand_evaluator_tool` prints:
-- tutorial_agents/agent_with_tool/hand_evaluator_tool.py.
use adk_poker.Base.{
  ◌<◌, ◌≡◌, refl, ◌∙◌, inl, inr, List, [], ◌∷◌, ◌++◌, arith, length, Bool-cases, ltb, leb, All,
  Option, none, some,
}
use mathlib.Core.Path.{subst, sym}
use adk_poker.Result.{Result, ok, first, ◌>>=◌}
use adk_poker.Cards.{Card}
use adk_poker.Ranking.{HandResult, high_card, high_card_of}
use adk_poker.Evaluator.{sort_cards, insert_card, result, combinations, ranks_of}
use adk_poker.Evaluator.Shape.{length-sort_cards, evaluate_five_cards-Evaluates}
use adk_poker.Evaluator.Choices.{combinations-length, combinations_nonempty, All-combinations}
use adk_poker.Tutorial.Agrees.{is_steel_wheel, five_high_flush, eval_five-compared}
use adk_poker.Tutorial.Simple.{
  eval_five, search_best, keep_better, replacing, few_high, simple_evaluate,
}
use adk_poker.Tutorial.Branches.{Keeps, eval_five-Keeps}

five_high_flush-total :
    (sorted : List Card) → length sorted ≡ 5 → (r : HandResult) × (five_high_flush sorted ≡ ok r)
five_high_flush-total [] h = absurd (omega arith)
five_high_flush-total (c ∷ sorted) h = (_, refl)

eval_five_total : (five : List Card) → length five ≡ 5 → (r : HandResult) × (eval_five five ≡ ok r)
eval_five_total five h = elim (Bool-cases (is_steel_wheel (sort_cards five))) [
  | inl e ↦
      let (r, run) = five_high_flush-total (sort_cards five) (length-sort_cards five ∙ h) in
      (r, (rw e at (eval_five-compared five)) ∙ run)
  | inr e ↦
      let (r, run, _) = evaluate_five_cards-Evaluates five h in
      (r, (rw e at (eval_five-compared five)) ∙ run)
]

module _ {ℓ} (P : Card → Type ℓ) where
  All-insert_card : (c : Card) (cards : List Card) → P c → All P cards → All P (insert_card c cards)
  unfolding insert_card
  All-insert_card c [] p h = (p, tt)
  All-insert_card c (d ∷ cards) p h = elim (Bool-cases (leb d.rank c.rank)) [
    | inl e ↦ rw e (p, h)
    | inr e ↦ rw e (h.0, All-insert_card c cards p h.1)
  ]

  pub All-sort_cards : (cards : List Card) → All P cards → All P (sort_cards cards)
  unfolding sort_cards
  All-sort_cards [] h = tt
  All-sort_cards (c ∷ cards) h = All-insert_card c (sort_cards cards) h.0 (All-sort_cards cards h.1)

  abbrev pub HasHand : Result HandResult → Type ℓ
  HasHand m = (r : HandResult) × (m ≡ ok r) × All P r.cards

  Keeps-HasHand :
      (cards : List Card) (m : Result HandResult)
      → Keeps cards m
      → ((r : HandResult) × (m ≡ ok r))
      → All P cards
      → HasHand m
  Keeps-HasHand cards m k (r, e) h = (r, e, subst (All P) (sym (k r e)) h)

  eval_five-HasHand : (five : List Card) → length five ≡ 5 → All P five → HasHand (eval_five five)
  eval_five-HasHand five n h =
      Keeps-HasHand (sort_cards five) (eval_five five) (eval_five-Keeps five)
        (eval_five_total five n) (All-sort_cards five h)

  keep_better-All :
      (best hr : HandResult)
      → All P best.cards
      → All P hr.cards
      → All P (keep_better (some best) hr).cards
  unfolding keep_better
  keep_better-All best hr b h = elim (Bool-cases (replacing best hr)) [
    | inl e ↦ rw e h
    | inr e ↦ rw e b
  ]

  abbrev pub HasBest : Result (Option HandResult) → Type ℓ
  HasBest m = (r : HandResult) × (m ≡ ok (some r)) × All P r.cards

  search_best-HasBest :
      (fives : List (List Card)) (best : HandResult)
      → All (λ five. length five ≡ 5) fives
      → All (All P) fives
      → All P best.cards
      → HasBest (search_best fives (some best))
  unfolding search_best
  search_best-HasBest [] best n h b = (best, refl, b)
  search_best-HasBest (five ∷ fives) best n h b =
      let (hr, e, k) = eval_five-HasHand five n.0 h.0 in
      rw e (
        search_best-HasBest fives (keep_better (some best) hr) n.1 h.1
          (keep_better-All best hr b k))

  search_all-HasBest :
      (fives : List (List Card))
      → 0 < length fives
      → All (λ five. length five ≡ 5) fives
      → All (All P) fives
      → HasBest (search_best fives none)
  unfolding search_best keep_better
  search_all-HasBest [] l n h = elim l [ ]
  search_all-HasBest (five ∷ fives) l n h =
      let (hr, e, k) = eval_five-HasHand five n.0 h.0 in
      rw e (search_best-HasBest fives hr n.1 h.1 k)

  few_high-HasHand : (cards : List Card) → 0 < length cards → All P cards → HasHand (few_high cards)
  unfolding few_high
  few_high-HasHand cards l h =
      high (sort_cards cards) (omega (arith, length-sort_cards cards)) (All-sort_cards cards h)
    where
      high :
          (sorted : List Card)
          → 0 < length sorted
          → All P sorted
          → HasHand
              (first sorted >>= λ top. result high_card sorted (ranks_of sorted) (high_card_of top))
      high [] l h = absurd (omega arith)
      high (c ∷ sorted) l h = (_, refl, h)

  -- From one card up there is a hand, and its cards are among those that were given.
  pub simple_evaluate-HasBest :
      (hole community : List Card)
      → 0 < length (hole ++ community)
      → All P (hole ++ community)
      → HasBest (simple_evaluate hole community)
  unfolding simple_evaluate
  simple_evaluate-HasBest hole community l h =
      elim (Bool-cases (ltb (length (hole ++ community)) 5)) [
        | inl e ↦
            let (r, run, k) = few_high-HasHand (hole ++ community) l h in (r, rw e (rw run), k)
        | inr e ↦ rw e (
            search_all-HasBest (combinations (hole ++ community) 5)
              (combinations_nonempty (hole ++ community) 5 (ground arith))
              (combinations-length (hole ++ community) 5)
              (All-combinations P (hole ++ community) 5 h))
      ]
