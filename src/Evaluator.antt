-- ===== src/Evaluator.antt =====
-- Hand evaluation: poker/evaluator.py. `sorted` is Python's stable sort, `Counter` its dictionary
-- in order of first appearance, and `combinations` that of itertools, in its order.
pub mod Order
pub mod Shape
pub mod Choices
pub mod Best
pub mod Total
pub mod Wheel
mod Tests
use adk_poker.Base.{
  ℕ, zero, suc, ◌+◌, ◌-◌, Bool, true, false, ◌&&◌, ◌||◌, not, List, [], ◌∷◌, ◌++◌, map, ltb, leb,
  ◌==◌, if◌then◌else◌, length, Option, none, some, contains,
}
use adk_poker.Result.{Result, ok, raise, value_error, index_error, ◌>>=◌, first}
use adk_poker.Cards.{Card, same_suit}
use adk_poker.Ranking.{
  HandRank, HandResult, Description, royal_flush, straight_flush, four_of_a_kind, full_house, flush,
  straight, three_of_a_kind, two_pair, one_pair, high_card, royal, straight_flush_high, flush_high,
  high_card_of, fours, straight_high, threes, pair_of, full_of, two_pairs_of, rank_value,
  kickers_lt, hand_lt, same_ranks,
}

-- `sorted(cards, key=lambda c: c.rank, reverse=True)`: equal ranks keep their order.
unfoldable pub insert_card : Card → List Card → List Card
insert_card c [] = c ∷ []
insert_card c (d ∷ cards) =
    let rest = insert_card c cards in if leb d.rank c.rank then c ∷ d ∷ cards else d ∷ rest

unfoldable pub sort_cards : List Card → List Card
unfolding insert_card
sort_cards [] = []
sort_cards (c ∷ cards) = insert_card c (sort_cards cards)

-- `sorted(values, reverse=True)`
unfoldable pub insert_desc : ℕ → List ℕ → List ℕ
insert_desc x [] = x ∷ []
insert_desc x (y ∷ ys) = let rest = insert_desc x ys in if leb y x then x ∷ y ∷ ys else y ∷ rest

unfoldable pub sort_desc : List ℕ → List ℕ
unfolding insert_desc
sort_desc [] = []
sort_desc (x ∷ xs) = insert_desc x (sort_desc xs)

abbrev pub ranks_of : List Card → List ℕ
ranks_of = map (λ (c : Card). c.rank)

-- `Counter(ranks)`, item by item.
unfoldable pub count_rank : ℕ → List (ℕ × ℕ) → List (ℕ × ℕ)
count_rank r [] = (r, 1) ∷ []
count_rank r ((k, n) ∷ items) =
    let rest = count_rank r items in if r == k then (k, n + 1) ∷ items else (k, n) ∷ rest

unfoldable pub counter_from : List (ℕ × ℕ) → List ℕ → List (ℕ × ℕ)
unfolding count_rank
counter_from items [] = items
counter_from items (r ∷ ranks) = counter_from (count_rank r items) ranks

-- `[rank for rank, count in rank_counts.items() if count == n]`
abbrev pub ranks_with : ℕ → List (ℕ × ℕ) → List ℕ
ranks_with n [] = []
ranks_with n ((r, m) ∷ items) = let rest = ranks_with n items in if m == n then r ∷ rest else rest

-- The members of `set(xs)`.
unfoldable pub distinct : List ℕ → List ℕ
distinct [] = []
distinct (x ∷ xs) = let rest = distinct xs in if contains x rest then rest else x ∷ rest

-- `len(set(suits)) == 1`
unfoldable pub is_flush : List Card → Bool
is_flush [] = false
is_flush (c ∷ []) = true
is_flush (c ∷ d ∷ cards) =
    let rest = is_flush (d ∷ cards) in if same_suit c.suit d.suit then rest else false

abbrev pub wheel : List ℕ
wheel = 14 ∷ 5 ∷ 4 ∷ 3 ∷ 2 ∷ []

-- `HandEvaluator._is_straight`, on the sorted set of the ranks.
unfoldable pub straight_ranks : List ℕ → Bool
straight_ranks (a ∷ b ∷ c ∷ d ∷ e ∷ []) = a - e == 4 || same_ranks (a ∷ b ∷ c ∷ d ∷ e ∷ []) wheel
straight_ranks _ = false

unfoldable pub is_straight : List ℕ → Bool
unfolding straight_ranks sort_desc distinct
is_straight ranks = straight_ranks (sort_desc (distinct ranks))

-- `ranks[0] if ranks != [14, 5, 4, 3, 2] else 5`
abbrev pub high_of : ℕ → List ℕ → ℕ
high_of top ranks = if not (same_ranks ranks wheel) then top else 5

abbrev pub result : HandRank → List Card → List ℕ → Description → Result HandResult
result rank cards kickers description =
    ok (record { rank = rank; cards = cards; kickers = kickers; description = description })

-- The branches of `_evaluate_five_cards` for four of a kind and below, in their order.
unfoldable pub four_of : List Card → List (ℕ × ℕ) → Result HandResult
four_of cards items = do
  four_rank ← first (ranks_with 4 items)
  kicker ← first (ranks_with 1 items)
  result four_of_a_kind cards (four_rank ∷ kicker ∷ []) (fours four_rank)

unfoldable pub full_of_ranks : List Card → List (ℕ × ℕ) → Result HandResult
full_of_ranks cards items = do
  three_rank ← first (ranks_with 3 items)
  pair_rank ← first (ranks_with 2 items)
  result full_house cards (three_rank ∷ pair_rank ∷ []) (full_of three_rank pair_rank)

unfoldable pub three_of : List Card → List (ℕ × ℕ) → Result HandResult
three_of cards items = do
  three_rank ← first (ranks_with 3 items)
  result three_of_a_kind cards (three_rank ∷ sort_desc (ranks_with 1 items)) (threes three_rank)

-- `pairs[0]` and `pairs[1]` go into the description.
unfoldable pub two_pair_of : List Card → List ℕ → List (ℕ × ℕ) → Result HandResult
two_pair_of cards (p ∷ q ∷ pairs) items = do
  kicker ← first (ranks_with 1 items)
  result two_pair cards (p ∷ q ∷ pairs ++ kicker ∷ []) (two_pairs_of p q)
two_pair_of cards _ items = raise index_error

unfoldable pub one_pair_of : List Card → List (ℕ × ℕ) → Result HandResult
one_pair_of cards items = do
  pair_rank ← first (ranks_with 2 items)
  result one_pair cards (pair_rank ∷ sort_desc (ranks_with 1 items)) (pair_of pair_rank)

-- The tests from the three of a kind down.
unfoldable pub lower_hands : List Card → Card → List (ℕ × ℕ) → List ℕ → Result HandResult
unfolding three_of two_pair_of one_pair_of sort_desc
lower_hands cards top items counts =
    if same_ranks counts (3 ∷ 1 ∷ 1 ∷ [])
    then three_of cards items
    else if same_ranks counts (2 ∷ 2 ∷ 1 ∷ [])
    then two_pair_of cards (sort_desc (ranks_with 2 items)) items
    else if same_ranks counts (2 ∷ 1 ∷ 1 ∷ 1 ∷ [])
    then one_pair_of cards items
    else result high_card cards (ranks_of cards) (high_card_of top)

-- The tests in the order of the source, on the sorted cards.
unfoldable pub classify : List Card → Card → Bool → Bool → List (ℕ × ℕ) → List ℕ → Result HandResult
unfolding four_of full_of_ranks lower_hands
classify cards top flushed straightened items counts =
    if flushed && straightened && top.rank == 14
    then result royal_flush cards (14 ∷ []) royal
    else if flushed && straightened
    then result straight_flush cards (high_of top.rank (ranks_of cards) ∷ [])
        (straight_flush_high top)
    else if same_ranks counts (4 ∷ 1 ∷ [])
    then four_of cards items
    else if same_ranks counts (3 ∷ 2 ∷ [])
    then full_of_ranks cards items
    else if flushed
    then result flush cards (ranks_of cards) (flush_high top)
    else if straightened
    then result straight cards (high_of top.rank (ranks_of cards) ∷ [])
        (straight_high (high_of top.rank (ranks_of cards)))
    else lower_hands cards top items counts

unfoldable pub counts_of : List (ℕ × ℕ) → List ℕ
unfolding sort_desc
counts_of items = sort_desc (map (λ (e : ℕ × ℕ). e.1) items)

-- What `_evaluate_five_cards` does after its sort.
unfoldable pub evaluate_sorted : List Card → Result HandResult
unfolding classify counts_of counter_from is_flush is_straight
evaluate_sorted cards = do
  top ← first cards
  classify cards top (is_flush cards) (is_straight (ranks_of cards))
      (counter_from [] (ranks_of cards)) (counts_of (counter_from [] (ranks_of cards)))

-- `HandEvaluator._evaluate_five_cards`
unfoldable pub evaluate_five_cards : List Card → Result HandResult
unfolding evaluate_sorted sort_cards
evaluate_five_cards cards =
    if not (length cards == 5) then raise value_error else evaluate_sorted (sort_cards cards)

-- `itertools.combinations(cards, n)`
unfoldable pub combinations {ℓ} : {A : Type ℓ} → List A → ℕ → List (List A)
combinations cards zero = [] ∷ []
combinations [] (suc n) = []
combinations (c ∷ cards) (suc n) = map (◌∷◌ c) (combinations cards n) ++ combinations cards (suc n)

-- The test of the loop of `evaluate_hand`: does `hand` replace `best`?
abbrev replaces : HandResult → HandResult → Bool
replaces hand best =
    ltb (rank_value best.rank) (rank_value hand.rank)
    || (rank_value hand.rank == rank_value best.rank && not (hand_lt hand best))

unfoldable pub better : HandResult → Option HandResult → HandResult
unfolding hand_lt kickers_lt
better hand none = hand
better hand (some best) = if replaces hand best then hand else best

-- The loop of `evaluate_hand` over the combinations.
unfoldable pub best_of : List (List Card) → Option HandResult → Result (Option HandResult)
unfolding better evaluate_five_cards
best_of [] best = ok best
best_of (five ∷ rest) best = do
  hand ← evaluate_five_cards five
  best_of rest (some (better hand best))

-- Fewer than five cards are a high card.
unfoldable pub few_cards : List Card → Result HandResult
unfolding sort_cards
few_cards cards = do
  top ← first (sort_cards cards)
  result high_card (sort_cards cards) (ranks_of (sort_cards cards)) (high_card_of top)

-- `HandEvaluator.evaluate_hand`; it returns `None` where there is no combination.
unfoldable pub evaluate_hand : List Card → List Card → Result (Option HandResult)
unfolding few_cards best_of combinations
evaluate_hand hole community =
    if ltb (length (hole ++ community)) 5
    then (few_cards (hole ++ community) >>= λ hand. ok (some hand))
    else best_of (combinations (hole ++ community) 5) none
