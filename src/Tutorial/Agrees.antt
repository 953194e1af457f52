-- ===== src/Tutorial/Agrees.antt =====
-- The tutorial's evaluator beside the program's: `SimpleHandEvaluator` of
-- tutorial_agents/agent_with_tool/hand_evaluator_tool.py and `HandEvaluator` of poker/evaluator.py.
use adk_poker.Base.{
  ℕ, ◌≡◌, refl, ap, ◌∙◌, sym, inl, inr, Bool, true, false, ◌&&◌, List, [], ◌∷◌, ◌++◌, arith, length,
  Bool-cases, if◌then◌else◌, ◌==◌, All, Option, none, some,
}
use adk_poker.Result.{Result, ok, raise, first, ◌>>=◌}
use adk_poker.Cards.{Card}
use adk_poker.Ranking.{HandResult, straight_flush, straight_flush_high, same_ranks}
use adk_poker.Evaluator.{
  evaluate_five_cards, evaluate_sorted, evaluate_hand, best_of, better, few_cards, combinations,
  classify, sort_cards, is_flush, is_straight, counter_from, counts_of, result, ranks_of, wheel,
}
use adk_poker.Evaluator.Shape.{length-sort_cards, length-ranks_of, same_ranks-eq}
use adk_poker.Tutorial.Simple.{
  eval_five, eval_sorted, eval_shape, same_set, royal_ranks, simple_evaluate, search_best,
  keep_better, few_high,
}
use adk_poker.Tutorial.Royal.{Descends, sort_cards-Descends, ace_straight}

-- The two lists of tests part at the royal flush only.
eval_shape-classify :
    (cards : List Card) (top : Card) (items : List (ℕ × ℕ)) (counts : List ℕ) (fl st : Bool)
    → (fl ≡ true → st ≡ true → top.rank ≡ 14 → same_set (ranks_of cards) royal_ranks ≡ true)
    → eval_shape cards top fl st items counts ≡ classify cards top fl st items counts
unfolding eval_shape classify
eval_shape-classify cards top items counts true true royal = elim (Bool-cases (top.rank == 14)) [
  | inl e ↦ rw (e, royal refl refl (ground arith))
  | inr e ↦ rw e
]
eval_shape-classify cards top items counts true false royal = refl
eval_shape-classify cards top items counts false true royal = refl
eval_shape-classify cards top items counts false false royal = refl

eval_sorted-agrees :
    (cards : List Card)
    → length cards ≡ 5
    → Descends (ranks_of cards)
    → (is_flush cards && same_ranks (ranks_of cards) wheel) ≡ false
    → eval_sorted cards ≡ evaluate_sorted cards
unfolding eval_sorted evaluate_sorted
eval_sorted-agrees [] h k w = refl
eval_sorted-agrees (c ∷ cards) h k w =
    eval_shape-classify (c ∷ cards) c (counter_from [] (ranks_of (c ∷ cards)))
      (counts_of (counter_from [] (ranks_of (c ∷ cards)))) (is_flush (c ∷ cards))
      (is_straight (ranks_of (c ∷ cards)))
      λ fl st top.
        ace_straight (ranks_of (c ∷ cards)) k (length-ranks_of (c ∷ cards) ∙ h) st (ap ok top)
          (rw fl at w)

-- Five suited cards A, 5, 4, 3, 2, sorted.
abbrev pub is_steel_wheel : List Card → Bool
is_steel_wheel sorted = is_flush sorted && same_ranks (ranks_of sorted) wheel

abbrev pub five_high_flush : List Card → Result HandResult
five_high_flush sorted = do
  top ← first sorted
  result straight_flush sorted (5 ∷ []) (straight_flush_high top)

pub wheel-is_straight : is_straight wheel ≡ true
unfolding is_straight
wheel-is_straight = refl

shape_wheel :
    (cards : List Card) (top : Card) (items : List (ℕ × ℕ)) (counts : List ℕ)
    → ranks_of cards ≡ wheel
    → eval_shape cards top true true items counts
      ≡ result straight_flush cards (5 ∷ []) (straight_flush_high top)
unfolding eval_shape
shape_wheel cards top items counts w = rw w (ground arith)

sorted_wheel :
    (sorted : List Card)
    → is_flush sorted ≡ true
    → ranks_of sorted ≡ wheel
    → eval_sorted sorted ≡ five_high_flush sorted
unfolding eval_sorted
sorted_wheel [] f w = cc
sorted_wheel (c ∷ rest) f w =
    let s : is_straight (ranks_of (c ∷ rest)) ≡ true = ap is_straight w ∙ wheel-is_straight in
    rw (f, s)
      (shape_wheel (c ∷ rest) c (counter_from [] (ranks_of (c ∷ rest)))
        (counts_of (counter_from [] (ranks_of (c ∷ rest)))) w)

steel_wheel-parts :
    (sorted : List Card)
    → is_steel_wheel sorted ≡ true
    → (is_flush sorted ≡ true) × (ranks_of sorted ≡ wheel)
steel_wheel-parts sorted h = (ground arith, same_ranks-eq (ranks_of sorted) wheel (ground arith))

-- On any cards _eval_five gives what _evaluate_five_cards gives, errors included, but for five
-- suited cards A, 5, 4, 3, 2: these are a straight flush with the kicker 5.
pub eval_five-compared :
    (cards : List Card)
    → eval_five cards ≡ (
        if is_steel_wheel (sort_cards cards)
        then five_high_flush (sort_cards cards)
        else evaluate_five_cards cards)
unfolding eval_five evaluate_five_cards
eval_five-compared cards = elim (Bool-cases (is_steel_wheel (sort_cards cards))) [
  | inl e ↦
      let (f, w) = steel_wheel-parts (sort_cards cards) e in
      let five : length cards ≡ 5 =
        sym (length-sort_cards cards) ∙ sym (length-ranks_of (sort_cards cards)) ∙ ap length w in
      rw (e, five) (sorted_wheel (sort_cards cards) f w)
  | inr e ↦ rw e (elim (Bool-cases (length cards == 5)) [
    | inl five ↦ rw five (
        eval_sorted-agrees (sort_cards cards) (length-sort_cards cards ∙ ground arith)
          (sort_cards-Descends cards) e)
    | inr other ↦ rw other
  ])
]

-- None of the choices of five cards is that hand.
abbrev pub NoSteelWheel : List (List Card) → Type 0
NoSteelWheel = All (λ five. is_steel_wheel (sort_cards five) ≡ false)

eval_five-agrees :
    (five : List Card)
    → is_steel_wheel (sort_cards five) ≡ false
    → eval_five five ≡ evaluate_five_cards five
eval_five-agrees five h = rw h at (eval_five-compared five)

keep_better-better :
    (best : Option HandResult) (hr : HandResult) → keep_better best hr ≡ better hr best
unfolding keep_better better
keep_better-better none hr = refl
keep_better-better (some best) hr = refl

search_best-best_of :
    (fives : List (List Card)) (best : Option HandResult)
    → NoSteelWheel fives
    → search_best fives best ≡ best_of fives best
unfolding search_best best_of
search_best-best_of [] best h = refl
search_best-best_of (five ∷ fives) best h = rw (eval_five-agrees five h.0) (
    after (evaluate_five_cards five)
      λ hr. rw (keep_better-better best hr) (search_best-best_of fives (some (better hr best)) h.1))
  where
    after :
        {f g : HandResult → Result (Option HandResult)} (m : Result HandResult)
        → ((hr : HandResult) → f hr ≡ g hr)
        → (m >>= f) ≡ (m >>= g)
    after (ok hr) k = k hr
    after (raise e) k = refl

-- The tutorial's evaluator gives what the program's evaluator gives, errors included, for all
-- cards among which no choice of five is a suited A, 5, 4, 3, 2.
pub simple_evaluate-evaluate_hand :
    (hole community : List Card)
    → NoSteelWheel (combinations (hole ++ community) 5)
    → simple_evaluate hole community ≡ evaluate_hand hole community
unfolding simple_evaluate evaluate_hand few_high few_cards
simple_evaluate-evaluate_hand hole community h =
    rw (search_best-best_of (combinations (hole ++ community) 5) none h)
