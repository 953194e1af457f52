-- ===== src/Ranking.antt =====
-- Hands and their order: poker/evaluator.py, HandRank, HandResult and HandEvaluator.compare_hands. A
-- description is kept as the format string that was chosen, with the cards and ranks put into it.
use adk_poker.Base.{ℕ, Bool, true, false, ◌&&◌, not, List, [], ◌∷◌, ltb, ◌==◌, if◌then◌else◌}
use adk_poker.Base.Int.{ℤ, pos, negsuc}
use adk_poker.Cards.{Card}

pub data HandRank : Type 0 where
  royal_flush straight_flush four_of_a_kind full_house flush straight : HandRank
  three_of_a_kind two_pair one_pair high_card : HandRank

-- `HandRank.value`
abbrev pub rank_value : HandRank → ℕ
rank_value royal_flush = 10
rank_value straight_flush = 9
rank_value four_of_a_kind = 8
rank_value full_house = 7
rank_value flush = 6
rank_value straight = 5
rank_value three_of_a_kind = 4
rank_value two_pair = 3
rank_value one_pair = 2
rank_value high_card = 1

pub data Description : Type 0 where
  royal : Description
  straight_flush_high flush_high high_card_of : Card → Description
  fours straight_high threes pair_of : ℕ → Description
  full_of two_pairs_of : ℕ → ℕ → Description

pub record HandResult : Type 0 where
  pub rank : HandRank
  pub cards : List Card
  pub kickers : List ℕ
  pub description : Description

-- The loop of `HandResult.__lt__` over `zip(self.kickers, other.kickers)`.
unfoldable pub kickers_lt : List ℕ → List ℕ → Bool
kickers_lt [] _ = false
kickers_lt (k ∷ ks) [] = false
kickers_lt (k ∷ ks) (l ∷ ls) = let rest = kickers_lt ks ls in if k == l then rest else ltb k l

-- `HandResult.__lt__`
unfoldable pub hand_lt : HandResult → HandResult → Bool
hand_lt a b =
    if not (rank_value a.rank == rank_value b.rank)
    then ltb (rank_value a.rank) (rank_value b.rank)
    else kickers_lt a.kickers b.kickers

-- `==` between two lists of ranks.
abbrev pub same_ranks : List ℕ → List ℕ → Bool
same_ranks [] [] = true
same_ranks (x ∷ xs) (y ∷ ys) = let rest = same_ranks xs ys in if x == y then rest else false
same_ranks _ _ = false

-- `HandResult.__eq__`
unfoldable pub hand_eq : HandResult → HandResult → Bool
hand_eq a b = rank_value a.rank == rank_value b.rank && same_ranks a.kickers b.kickers

-- The loop of `compare_hands` over the kickers.
unfoldable pub compare_kickers : List ℕ → List ℕ → ℤ
compare_kickers [] _ = pos 0
compare_kickers (k ∷ ks) [] = pos 0
compare_kickers (k ∷ ks) (l ∷ ls) =
    let rest = compare_kickers ks ls in
    if ltb l k then pos 1 else if ltb k l then negsuc 0 else rest

-- `HandEvaluator.compare_hands`
unfoldable pub compare_hands : HandResult → HandResult → ℤ
unfolding compare_kickers
compare_hands a b =
    if ltb (rank_value b.rank) (rank_value a.rank)
    then pos 1
    else if ltb (rank_value a.rank) (rank_value b.rank)
    then negsuc 0
    else compare_kickers a.kickers b.kickers
