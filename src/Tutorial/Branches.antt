-- ===== src/Tutorial/Branches.antt =====
-- The cards of a result of `_eval_five`, branch by branch: tutorial_agents/agent_with_tool/hand_evaluator_tool.py.
use adk_poker.Base.{
  ℕ, ◌≡◌, Bool, true, false, ◌&&◌, List, [], ◌∷◌, length, if◌then◌else◌, not, ◌==◌,
}
use adk_poker.Result.{Result, ok, raise, first, ◌>>=◌}
use adk_poker.Cards.{Card}
use adk_poker.Ranking.{HandRank, HandResult, Description, same_ranks}
use adk_poker.Evaluator.{
  sort_cards, result, four_of, full_of_ranks, three_of, two_pair_of, one_pair_of, lower_hands,
  sort_desc, ranks_with, is_straight, is_flush, counter_from, counts_of, ranks_of,
}
use adk_poker.Tutorial.Simple.{eval_five, eval_sorted, eval_shape, same_set, royal_ranks}

-- Whatever hand is returned is a hand of these cards.
abbrev pub Keeps : List Card → Result HandResult → Type 0
Keeps cards m = (r : HandResult) → m ≡ ok r → r.cards ≡ cards

result-Keeps :
    (rank : HandRank) (cards : List Card) (kickers : List ℕ) (description : Description)
    → Keeps cards (result rank cards kickers description)
result-Keeps rank cards kickers description r e = cc

module _ {cards : List Card} where
  bind-Keeps {ℓ} :
      {A : Type ℓ} (m : Result A) {f : A → Result HandResult}
      → ((a : A) → Keeps cards (f a))
      → Keeps cards (m >>= f)
  bind-Keeps (ok a) k r h = k a r h
  bind-Keeps (raise e) k r h = cc

  if-Keeps :
      (b : Bool) {x y : Result HandResult}
      → Keeps cards x
      → Keeps cards y
      → Keeps cards (if b then x else y)
  if-Keeps true hx hy = hx
  if-Keeps false hx hy = hy

module _ (cards : List Card) (items : List (ℕ × ℕ)) where
  four_of-Keeps : Keeps cards (four_of cards items)
  unfolding four_of
  four_of-Keeps =
      bind-Keeps (first (ranks_with 4 items))
        λ _. bind-Keeps (first (ranks_with 1 items)) λ _. result-Keeps _ cards _ _

  full_of_ranks-Keeps : Keeps cards (full_of_ranks cards items)
  unfolding full_of_ranks
  full_of_ranks-Keeps =
      bind-Keeps (first (ranks_with 3 items))
        λ _. bind-Keeps (first (ranks_with 2 items)) λ _. result-Keeps _ cards _ _

  two_pair_of-Keeps : (pairs : List ℕ) → Keeps cards (two_pair_of cards pairs items)
  unfolding two_pair_of
  two_pair_of-Keeps [] r e = cc
  two_pair_of-Keeps (p ∷ []) r e = cc
  two_pair_of-Keeps (p ∷ q ∷ pairs) r e =
      bind-Keeps (first (ranks_with 1 items)) (λ _. result-Keeps _ cards _ _) r e

  lower_hands-Keeps :
      (top : Card) (counts : List ℕ) → Keeps cards (lower_hands cards top items counts)
  unfolding lower_hands three_of one_pair_of
  lower_hands-Keeps top counts =
      if-Keeps (same_ranks counts (3 ∷ 1 ∷ 1 ∷ []))
        (bind-Keeps (first (ranks_with 3 items)) λ _. result-Keeps _ cards _ _)
        (if-Keeps (same_ranks counts (2 ∷ 2 ∷ 1 ∷ []))
          (two_pair_of-Keeps (sort_desc (ranks_with 2 items)))
          (if-Keeps (same_ranks counts (2 ∷ 1 ∷ 1 ∷ 1 ∷ []))
            (bind-Keeps (first (ranks_with 2 items)) λ _. result-Keeps _ cards _ _)
            (result-Keeps _ cards _ _)))

  eval_shape-Keeps :
      (top : Card) (fl st : Bool) (counts : List ℕ)
      → Keeps cards (eval_shape cards top fl st items counts)
  unfolding eval_shape
  eval_shape-Keeps top fl st counts =
      if-Keeps (fl && st && top.rank == 14 && same_set (ranks_of cards) royal_ranks)
        (result-Keeps _ cards _ _)
        (if-Keeps (fl && st) (result-Keeps _ cards _ _) (
          if-Keeps (same_ranks counts (4 ∷ 1 ∷ [])) four_of-Keeps (
            if-Keeps (same_ranks counts (3 ∷ 2 ∷ [])) full_of_ranks-Keeps (
              if-Keeps fl (result-Keeps _ cards _ _)
                (if-Keeps st (result-Keeps _ cards _ _) (lower_hands-Keeps top counts))))))

eval_sorted-Keeps : (cards : List Card) → Keeps cards (eval_sorted cards)
unfolding eval_sorted
eval_sorted-Keeps cards = bind-Keeps (first cards) λ top.
    eval_shape-Keeps cards (counter_from [] (ranks_of cards)) top (is_flush cards)
      (is_straight (ranks_of cards)) (counts_of (counter_from [] (ranks_of cards)))

pub eval_five-Keeps : (cards : List Card) → Keeps (sort_cards cards) (eval_five cards)
unfolding eval_five
eval_five-Keeps cards =
    if-Keeps (not (length cards == 5)) (λ r h. cc) (eval_sorted-Keeps (sort_cards cards))
