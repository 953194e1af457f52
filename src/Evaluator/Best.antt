-- ===== src/Evaluator/Best.antt =====
-- `HandEvaluator.evaluate_hand` over the combinations of five cards.
use adk_poker.Base.{
  ℕ, ◌≤◌, ◌<◌, ◌≡◌, refl, ap, ◌∙◌, sym, ◌⊎◌, inl, inr, false, List, [], ◌∷◌, ◌++◌, arith, ltb, ◌==◌,
  length, Bool-cases, if◌then◌else◌, Option, none, some, All,
}
use adk_poker.Result.{Result, ok}
use adk_poker.Cards.{Card}
use adk_poker.Ranking.{
  HandRank, royal_flush, straight_flush, four_of_a_kind, full_house, flush, straight,
  three_of_a_kind, two_pair, one_pair, high_card, HandResult, rank_value, hand_lt,
}
use adk_poker.Evaluator.{
  replaces, better, best_of, combinations, evaluate_five_cards, evaluate_hand,
}
use adk_poker.Evaluator.Choices.{combinations-length, combinations_nonempty}
use adk_poker.Evaluator.Order.{
  Comparable, hand_lt_trans, hand_lt_irrefl, replaces-true, replaces-false,
}
use adk_poker.Evaluator.Shape.{kickers_count, IsShaped, evaluate_five_cards-Evaluates}

-- The number of kickers, from the value of a rank.
abbrev kickers_of_value : ℕ → ℕ
kickers_of_value v =
    if v == 10
    then 1
    else if v == 9
    then 1
    else if v == 8
    then 2
    else if v == 7
    then 2
    else if v == 6
    then 5
    else if v == 5
    then 1
    else if v == 4
    then 3
    else if v == 3
    then 3
    else if v == 2
    then 4
    else 5

kickers_count-value : (r : HandRank) → kickers_count r ≡ kickers_of_value (rank_value r)
kickers_count-value royal_flush = refl
kickers_count-value straight_flush = refl
kickers_count-value four_of_a_kind = refl
kickers_count-value full_house = refl
kickers_count-value flush = refl
kickers_count-value straight = refl
kickers_count-value three_of_a_kind = refl
kickers_count-value two_pair = refl
kickers_count-value one_pair = refl
kickers_count-value high_card = refl

-- Ranks with one value are one rank, so hands of the right shape are comparable.
shaped-Comparable : (a b : HandResult) → IsShaped a → IsShaped b → Comparable a b
shaped-Comparable a b h k e =
    h
    ∙ kickers_count-value a.rank
    ∙ ap kickers_of_value e
    ∙ sym (kickers_count-value b.rank)
    ∙ sym k

abbrev FiveEach : List (List Card) → Type 0
FiveEach = All (λ five. length five ≡ 5)

-- No choice of five cards has a hand above `r`.
abbrev pub Unbeaten : HandResult → List (List Card) → Type 0
Unbeaten r = All (λ five. (s : HandResult) → evaluate_five_cards five ≡ ok s → hand_lt r s ≡ false)

-- `r` is the hand of one of the choices.
abbrev pub Attained : HandResult → List (List Card) → Type 0
Attained r [] = ⊥
Attained r (five ∷ rest) = (evaluate_five_cards five ≡ ok r) ⊎ Attained r rest

better-cases :
    (hand best : HandResult)
    → ((better hand (some best) ≡ hand) × (hand_lt hand best ≡ false))
      ⊎ ((better hand (some best) ≡ best) × (hand_lt best hand ≡ false))
unfolding better
better-cases hand best = elim (Bool-cases (replaces hand best)) [
  | inl e ↦ inl (rw e, replaces-true hand best e)
  | inr e ↦ inr (rw e, replaces-false hand best e)
]

-- The loop from a hand `best`: the result is not below `best` nor below any later hand.
abbrev Found : List (List Card) → HandResult → Type 0
Found fives best =
    (r : HandResult) × (best_of fives (some best) ≡ ok (some r))
    × IsShaped r
    × (hand_lt r best ≡ false)
    × Unbeaten r fives
    × ((r ≡ best) ⊎ Attained r fives)

head-Unbeaten :
    (r hand : HandResult) (five : List Card)
    → evaluate_five_cards five ≡ ok hand
    → hand_lt r hand ≡ false
    → (s : HandResult) → evaluate_five_cards five ≡ ok s
    → hand_lt r s ≡ false
head-Unbeaten r hand five e above s q = let same : ok hand ≡ ok s = sym e ∙ q in cc

best_of-Found :
    (fives : List (List Card)) (best : HandResult)
    → FiveEach fives
    → IsShaped best
    → Found fives best
unfolding best_of
best_of-Found [] best h k = (best, refl, k, hand_lt_irrefl best, tt, inl refl)
best_of-Found (five ∷ fives) best h k =
    let (hand, e, shaped) = evaluate_five_cards-Evaluates five h.0 in
    elim (better-cases hand best) [
      | inl (b, o) ↦
          let (r, run, rs, above, all, from) = best_of-Found fives hand h.1 shaped in
          let over =
            hand_lt_trans r hand best (shaped-Comparable r hand rs shaped)
              (shaped-Comparable hand best shaped k) above o in
          (
            r,
            rw (e, b) run,
            rs,
            over,
            (head-Unbeaten r hand five e above, all),
            elim from [ inl q ↦ inr (inl (rw q e)) | inr a ↦ inr (inr a) ],
          )
      | inr (b, o) ↦
          let (r, run, rs, above, all, from) = best_of-Found fives best h.1 k in
          let over =
            hand_lt_trans r best hand (shaped-Comparable r best rs k)
              (shaped-Comparable best hand k shaped) above o in
          (
            r,
            rw (e, b) run,
            rs,
            above,
            (head-Unbeaten r hand five e over, all),
            elim from [ inl q ↦ inl q | inr a ↦ inr (inr a) ],
          )
    ]

abbrev pub Best : List (List Card) → Result (Option HandResult) → Type 0
Best fives m =
    (r : HandResult) × (m ≡ ok (some r)) × IsShaped r × Unbeaten r fives × Attained r fives

best_of-Best :
    (fives : List (List Card)) → FiveEach fives → 0 < length fives → Best fives (best_of fives none)
unfolding best_of better
best_of-Best [] h k = elim k [ ]
best_of-Best (five ∷ fives) h k =
    let (hand, e, shaped) = evaluate_five_cards-Evaluates five h.0 in
    let (r, run, rs, above, all, from) = best_of-Found fives hand h.1 shaped in
    (
      r,
      rw e run,
      rs,
      (head-Unbeaten r hand five e above, all),
      elim from [ inl q ↦ inl (rw q e) | inr a ↦ inr a ],
    )

-- From five cards or more, evaluation never raises and never returns None: its result is the hand
-- of some choice of five of them, and no choice of five has a hand above it.
pub evaluate_hand-Best :
    (hole community : List Card)
    → 5 ≤ length (hole ++ community)
    → Best (combinations (hole ++ community) 5) (evaluate_hand hole community)
unfolding evaluate_hand
evaluate_hand-Best hole community h =
    let e : ltb (length (hole ++ community)) 5 ≡ false = ground arith in
    rw e (
      best_of-Best _ (combinations-length (hole ++ community) 5)
        (combinations_nonempty (hole ++ community) 5 h))
