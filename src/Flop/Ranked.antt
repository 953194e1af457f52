-- ===== src/Flop/Ranked.antt =====
-- The tests of `_get_hand_rank_and_kickers` of
-- agents/team1_agent/flop_strategy_agent/tools/hand_evaluator.py, beside those of poker/evaluator.py.
use adk_poker.Base.{
  ℕ, suc, ◌≡◌, refl, Bool, true, false, ◌&&◌, List, [], ◌∷◌, arith, ◌==◌, every, if◌then◌else◌,
}
use adk_poker.Result.{Result, first, ◌>>=◌}
use adk_poker.Ranking.{same_ranks}
use adk_poker.Evaluator.{counter_from, counts_of}
use adk_poker.Flop.Rank.{Details, nth, lower_details, counted_details, details_of, ranks_by_count}
use adk_poker.Flop.Counts.{partitions, is_partition, partition-every}
use adk_poker.Flop.Category.{Holds, bind-Holds, value_from}

abbrev Ranks : ℕ → Result Details → Type 0
Ranks k = Holds (λ d. d.hand_rank ≡ k)

if-Ranks :
    (b : Bool) {k l : ℕ} {x y : Result Details}
    → Ranks k x
    → Ranks l y
    → Ranks (if b then k else l) (if b then x else y)
if-Ranks true hx hy = hx
if-Ranks false hx hy = hy

-- The rank of a hand, from the tests of `_get_hand_rank_and_kickers`.
abbrev rank_below : Bool → Bool → List ℕ → ℕ → ℕ
rank_below fl st counts most =
    if most == 4
    then 7
    else if same_ranks counts (3 ∷ 2 ∷ [])
    then 6
    else if fl
    then 5
    else if st
    then 4
    else if most == 3
    then 3
    else if same_ranks counts (2 ∷ 2 ∷ 1 ∷ [])
    then 2
    else if most == 2
    then 1
    else 0

abbrev pub rank_from : Bool → Bool → List ℕ → ℕ → ℕ
rank_from fl st counts most = if st && fl then 8 else rank_below fl st counts most

module _ (ranks sorted counts : List ℕ) (most : ℕ) where
  lower_details-Ranks :
      (fl st : Bool)
      → Ranks
          (if fl
            then 5
            else if st
            then 4
            else if most == 3
            then 3
            else if same_ranks counts (2 ∷ 2 ∷ 1 ∷ [])
            then 2
            else if most == 2
            then 1
            else 0)
          (lower_details fl st ranks sorted counts most)
  unfolding lower_details
  lower_details-Ranks fl st =
      if-Ranks fl (λ d e. cc)
        (if-Ranks st (bind-Holds (first ranks) λ _ d e. cc) (
          if-Ranks (most == 3) (bind-Holds (first sorted) λ _ d e. cc) (
            if-Ranks (same_ranks counts (2 ∷ 2 ∷ 1 ∷ []))
              (bind-Holds (nth sorted 0)
                λ _. bind-Holds (nth sorted 1) λ _. bind-Holds (nth sorted 2) λ _ d e. cc)
              (if-Ranks (most == 2) (bind-Holds (first sorted) λ _ d e. cc) (λ d e. cc)))))

  counted_details-Ranks :
      (fl st : Bool)
      → Ranks (rank_below fl st counts most) (counted_details fl st ranks sorted counts most)
  unfolding counted_details
  counted_details-Ranks fl st =
      if-Ranks (most == 4) (bind-Holds (nth sorted 0) λ _. bind-Holds (nth sorted 1) λ _ d e. cc) (
        if-Ranks (same_ranks counts (3 ∷ 2 ∷ []))
          (bind-Holds (nth sorted 0) λ _. bind-Holds (nth sorted 1) λ _ d e. cc)
          (lower_details-Ranks fl st))

abbrev pub lead : List ℕ → ℕ
lead [] = 0
lead (n ∷ counts) = n

pub details_of-Ranks :
    (fl st : Bool) (ranks : List ℕ)
    → Ranks
        (rank_from fl st
          (counts_of (counter_from [] ranks))
          (lead (counts_of (counter_from [] ranks))))
        (details_of fl st ranks)
unfolding details_of
details_of-Ranks fl st ranks =
    if-Ranks (st && fl) (bind-Holds (first ranks) λ _ d e. cc)
      (led (counts_of (counter_from [] ranks)) (ranks_by_count (counter_from [] ranks)))
  where
    led :
        (counts sorted : List ℕ)
        → Ranks
            (rank_below fl st counts (lead counts))
            (first counts >>= counted_details fl st ranks sorted counts)
    led [] sorted = λ d e. cc
    led (n ∷ counts) sorted = counted_details-Ranks ranks sorted (n ∷ counts) n fl st

abbrev matches : Bool → Bool → List ℕ → Bool
matches fl st counts = value_from fl st counts == suc (rank_from fl st counts (lead counts))

matches-every : (fl st : Bool) → every (matches fl st) partitions ≡ true
matches-every true true = refl
matches-every true false = refl
matches-every false true = refl
matches-every false false = refl

-- On the counts of five cards the two lists of tests agree.
pub value_from-rank_from :
    (fl st : Bool) (counts : List ℕ)
    → is_partition counts ≡ true
    → value_from fl st counts ≡ suc (rank_from fl st counts (lead counts))
value_from-rank_from fl st counts h =
    let e = partition-every (matches fl st) counts (matches-every fl st) h in
    equal (value_from fl st counts) (suc (rank_from fl st counts (lead counts))) e
  where
    equal : (m n : ℕ) → (m == n) ≡ true → m ≡ n
    equal m n h = ground arith
