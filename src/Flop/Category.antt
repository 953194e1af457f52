-- ===== src/Flop/Category.antt =====
-- The categories that poker/evaluator.py and
-- agents/team1_agent/flop_strategy_agent/tools/hand_evaluator.py give to one set of counts.
use adk_poker.Base.{ℕ, ◌≡◌, Bool, true, false, ◌&&◌, List, [], ◌∷◌, ◌==◌, min, if◌then◌else◌}
use adk_poker.Result.{Result, ok, raise, first, ◌>>=◌}
use adk_poker.Cards.{Card}
use adk_poker.Ranking.{HandRank, HandResult, Description, rank_value, same_ranks}
use adk_poker.Evaluator.{
  result, four_of, full_of_ranks, three_of, two_pair_of, one_pair_of, lower_hands, classify,
  sort_desc, ranks_with,
}

-- Whatever is returned has the property.
abbrev pub Holds {ℓ} : {A : Type ℓ} → (A → Type 0) → Result A → Type ℓ
Holds {A = A} P m = (a : A) → m ≡ ok a → P a

pub bind-Holds {ℓ κ} :
    {A : Type ℓ} {B : Type κ} {P : B → Type 0} (m : Result A) {f : A → Result B}
    → ((a : A) → Holds P (f a))
    → Holds P (m >>= f)
bind-Holds (ok a) k b h = k a b h
bind-Holds (raise e) k b h = cc

-- The hand's value, with the royal flush among the straight flushes.
abbrev pub value_of : HandResult → ℕ
value_of r = min 9 (rank_value r.rank)

abbrev Valued : ℕ → Result HandResult → Type 0
Valued k = Holds (λ r. value_of r ≡ k)

result-Valued :
    (rank : HandRank) (cards : List Card) (kickers : List ℕ) (description : Description)
    → Valued (min 9 (rank_value rank)) (result rank cards kickers description)
result-Valued rank cards kickers description r e = cc

if-Valued :
    (b : Bool) {k l : ℕ} {x y : Result HandResult}
    → Valued k x
    → Valued l y
    → Valued (if b then k else l) (if b then x else y)
if-Valued true hx hy = hx
if-Valued false hx hy = hy

either-Valued :
    (b : Bool) {k : ℕ} {x y : Result HandResult}
    → Valued k x
    → Valued k y
    → Valued k (if b then x else y)
either-Valued true hx hy = hx
either-Valued false hx hy = hy

-- The value of a hand, from the tests of `_evaluate_five_cards`.
abbrev pub value_from : Bool → Bool → List ℕ → ℕ
value_from fl st counts =
    if fl && st
    then 9
    else if same_ranks counts (4 ∷ 1 ∷ [])
    then 8
    else if same_ranks counts (3 ∷ 2 ∷ [])
    then 7
    else if fl
    then 6
    else if st
    then 5
    else if same_ranks counts (3 ∷ 1 ∷ 1 ∷ [])
    then 4
    else if same_ranks counts (2 ∷ 2 ∷ 1 ∷ [])
    then 3
    else if same_ranks counts (2 ∷ 1 ∷ 1 ∷ 1 ∷ [])
    then 2
    else 1

module _ (cards : List Card) (items : List (ℕ × ℕ)) where
  two_pair_of-Valued : (pairs : List ℕ) → Valued 3 (two_pair_of cards pairs items)
  unfolding two_pair_of
  two_pair_of-Valued [] r e = cc
  two_pair_of-Valued (p ∷ []) r e = cc
  two_pair_of-Valued (p ∷ q ∷ pairs) r e =
      bind-Holds (first (ranks_with 1 items)) (λ _. result-Valued _ cards _ _) r e

  lower_hands-Valued :
      (top : Card) (counts : List ℕ)
      → Valued
          (if same_ranks counts (3 ∷ 1 ∷ 1 ∷ [])
            then 4
            else if same_ranks counts (2 ∷ 2 ∷ 1 ∷ [])
            then 3
            else if same_ranks counts (2 ∷ 1 ∷ 1 ∷ 1 ∷ [])
            then 2
            else 1)
          (lower_hands cards top items counts)
  unfolding lower_hands three_of one_pair_of
  lower_hands-Valued top counts =
      if-Valued (same_ranks counts (3 ∷ 1 ∷ 1 ∷ []))
        (bind-Holds (first (ranks_with 3 items)) λ _. result-Valued _ cards _ _)
        (if-Valued (same_ranks counts (2 ∷ 2 ∷ 1 ∷ []))
          (two_pair_of-Valued (sort_desc (ranks_with 2 items)))
          (if-Valued (same_ranks counts (2 ∷ 1 ∷ 1 ∷ 1 ∷ []))
            (bind-Holds (first (ranks_with 2 items)) λ _. result-Valued _ cards _ _)
            (result-Valued _ cards _ _)))

  counted-Valued :
      (counts : List ℕ) (k : ℕ) (rest : Result HandResult)
      → Valued k rest
      → Valued
          (if same_ranks counts (4 ∷ 1 ∷ [])
            then 8
            else if same_ranks counts (3 ∷ 2 ∷ [])
            then 7
            else k)
          (if same_ranks counts (4 ∷ 1 ∷ [])
            then four_of cards items
            else if same_ranks counts (3 ∷ 2 ∷ [])
            then full_of_ranks cards items
            else rest)
  unfolding four_of full_of_ranks
  counted-Valued counts k rest h =
      if-Valued (same_ranks counts (4 ∷ 1 ∷ []))
        (bind-Holds (first (ranks_with 4 items))
          λ _. bind-Holds (first (ranks_with 1 items)) λ _. result-Valued _ cards _ _)
        (if-Valued (same_ranks counts (3 ∷ 2 ∷ []))
          (bind-Holds (first (ranks_with 3 items))
            λ _. bind-Holds (first (ranks_with 2 items)) λ _. result-Valued _ cards _ _)
          h)

  pub classify-Valued :
      (top : Card) (fl st : Bool) (counts : List ℕ)
      → Valued (value_from fl st counts) (classify cards top fl st items counts)
  unfolding classify
  classify-Valued top true true counts =
      either-Valued (top.rank == 14) (result-Valued _ cards _ _) (result-Valued _ cards _ _)
  classify-Valued top true false counts = counted-Valued counts 6 _ (result-Valued _ cards _ _)
  classify-Valued top false true counts = counted-Valued counts 5 _ (result-Valued _ cards _ _)
  classify-Valued top false false counts = counted-Valued counts _ _ (lower_hands-Valued top counts)
