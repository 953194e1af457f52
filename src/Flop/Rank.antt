-- ===== src/Flop/Rank.antt =====
-- `_parse_card` and `_get_hand_rank_and_kickers` of
-- agents/team1_agent/flop_strategy_agent/tools/hand_evaluator.py.
use adk_poker.Base.{
  ℕ, ◌+◌, Bool, true, false, not, ◌&&◌, List, [], ◌∷◌, map, ltb, ◌==◌, if◌then◌else◌, length,
  get_elem?, keep_if, contains, min, max, Text, codes, same_text, to_lower, to_upper, last_of,
  drop_last, occurs_in, text_lookup,
}
use adk_poker.Result.{
  Result, ok, raise, value_error, index_error, key_error, or_raise, first, traverse, ◌>>=◌,
}
use adk_poker.Ranking.{same_ranks}
use adk_poker.Evaluator.{sort_desc, distinct, counter_from, counts_of}

-- A parsed card is the pair of its two letters.
pub record Letters : Type 0 where
  pub rank : Text
  pub suit : ℕ

-- `RANKS` and `SUITS`
abbrev pub rank_letters : Text
rank_letters = codes "23456789TJQKA"

abbrev pub suit_letters : Text
suit_letters = codes "shdc"

-- `suit_map`, and what is done with a character that is not in it: ♠ ♥ ♦ ♣
abbrev pub suit_letter : ℕ → ℕ
suit_letter c =
    if c == 9824
    then b's'
    else if c == 9829
    then b'h'
    else if c == 9830
    then b'd'
    else if c == 9827
    then b'c'
    else to_lower c

abbrev pub rank_letter : Text → Text
rank_letter text =
    let rank = map to_upper text in if same_text rank (codes "10") then codes "T" else rank

-- `rank not in RANKS` looks for a part of the text `RANKS`.
abbrev pub checked : Text → ℕ → Result Letters
checked rank suit =
    if occurs_in rank rank_letters && contains suit suit_letters
    then ok (record { rank = rank; suit = suit })
    else raise value_error

-- `_parse_card`
unfoldable pub parse_letters : Text → Result Letters
parse_letters [] = raise index_error
parse_letters (c ∷ s) = checked (rank_letter (drop_last (c ∷ s))) (suit_letter (last_of c s))

abbrev pub rank_indices : List (Text × ℕ)
rank_indices =
    (codes "2", 0)
    ∷ (codes "3", 1)
    ∷ (codes "4", 2)
    ∷ (codes "5", 3)
    ∷ (codes "6", 4)
    ∷ (codes "7", 5)
    ∷ (codes "8", 6)
    ∷ (codes "9", 7)
    ∷ (codes "T", 8)
    ∷ (codes "J", 9)
    ∷ (codes "Q", 10)
    ∷ (codes "K", 11)
    ∷ (codes "A", 12)
    ∷ []

-- `RANK_MAP[r]`
unfoldable pub index_of_rank : Text → Result ℕ
index_of_rank r = or_raise (text_lookup r rank_indices) key_error

-- The tuple that is returned.
pub record Details : Type 0 where
  pub hand_rank : ℕ
  pub primary : ℕ
  pub secondary : ℕ
  pub kickers : List ℕ

abbrev pub details : ℕ → ℕ → ℕ → List ℕ → Details
details hand_rank primary secondary kickers = record {
  hand_rank = hand_rank;
  primary = primary;
  secondary = secondary;
  kickers = kickers;
}

-- `all(ranks[i] - ranks[i+1] == 1 for i in range(4))`
abbrev pub is_stepped : List ℕ → Bool
is_stepped (a ∷ b ∷ ranks) = let rest = is_stepped (b ∷ ranks) in if a == b + 1 then rest else false
is_stepped _ = true

abbrev pub wheel_indices : List ℕ
wheel_indices = 12 ∷ 3 ∷ 2 ∷ 1 ∷ 0 ∷ []

-- `is_straight`
abbrev pub is_run : List ℕ → Bool
is_run ranks = if is_stepped ranks then true else same_ranks ranks wheel_indices

-- `ranks`, once the ace of a wheel is put last.
abbrev pub ace_low : List ℕ → List ℕ
ace_low ranks =
    if is_stepped ranks
    then ranks
    else if same_ranks ranks wheel_indices
    then 3 ∷ 2 ∷ 1 ∷ 0 ∷ 12 ∷ []
    else ranks

-- `sorted(rank_counts.keys(), key=lambda k: (rank_counts[k], k), reverse=True)`
abbrev pub item_gt : ℕ × ℕ → ℕ × ℕ → Bool
item_gt (k, n) (j, m) = if n == m then ltb j k else ltb m n

unfoldable pub insert_counted : ℕ × ℕ → List (ℕ × ℕ) → List (ℕ × ℕ)
insert_counted e [] = e ∷ []
insert_counted e (f ∷ items) =
    let rest = insert_counted e items in if item_gt f e then f ∷ rest else e ∷ f ∷ items

unfoldable pub sort_counted : List (ℕ × ℕ) → List (ℕ × ℕ)
unfolding insert_counted
sort_counted [] = []
sort_counted (e ∷ items) = insert_counted e (sort_counted items)

unfoldable pub ranks_by_count : List (ℕ × ℕ) → List ℕ
unfolding sort_counted
ranks_by_count items = map (λ (e : ℕ × ℕ). e.0) (sort_counted items)

-- `xs[i]`
abbrev pub nth : List ℕ → ℕ → Result ℕ
nth xs i = or_raise (get_elem? xs i) index_error

-- `[r for r in sorted_ranks if r != rank]`, sorted.
abbrev pub others : ℕ → List ℕ → List ℕ
others rank sorted = sort_desc (keep_if (λ r. not (r == rank)) sorted)

-- The branches from the flush down; `most` is `counts[0]`.
unfoldable pub lower_details : Bool → Bool → List ℕ → List ℕ → List ℕ → ℕ → Result Details
unfolding sort_desc
lower_details flushed straightened ranks sorted counts most =
    if flushed
    then ok (details 5 0 0 ranks)
    else if straightened
    then (first ranks >>= λ top. ok (details 4 top 0 []))
    else if most == 3
    then (first sorted >>= λ trips_rank. ok (details 3 trips_rank 0 (others trips_rank sorted)))
    else if same_ranks counts (2 ∷ 2 ∷ 1 ∷ [])
    then (do
      p1 ← nth sorted 0
      p2 ← nth sorted 1
      kicker ← nth sorted 2
      ok (details 2 (max p1 p2) (min p1 p2) (kicker ∷ [])))
    else if most == 2
    then (first sorted >>= λ pair_rank. ok (details 1 pair_rank 0 (others pair_rank sorted)))
    else ok (details 0 0 0 ranks)

-- The branches below the straight flush.
unfoldable pub counted_details : Bool → Bool → List ℕ → List ℕ → List ℕ → ℕ → Result Details
unfolding lower_details
counted_details flushed straightened ranks sorted counts most =
    if most == 4
    then (do quad_rank ← nth sorted 0; kicker ← nth sorted 1; ok (details 7 quad_rank kicker []))
    else if same_ranks counts (3 ∷ 2 ∷ [])
    then (do
      trips_rank ← nth sorted 0
      pair_rank ← nth sorted 1
      ok (details 6 trips_rank pair_rank []))
    else lower_details flushed straightened ranks sorted counts most

-- What is done with the sorted ranks.
unfoldable pub details_of : Bool → Bool → List ℕ → Result Details
unfolding counted_details counter_from counts_of ranks_by_count
details_of flushed straightened ranks =
    let items = counter_from [] ranks in
    if straightened && flushed
    then (first ranks >>= λ top. ok (details 8 top 0 []))
    else (first (counts_of items)
        >>= counted_details flushed straightened ranks (ranks_by_count items) (counts_of items))

-- `_get_hand_rank_and_kickers`
unfoldable pub rank_and_kickers : List Letters → Result Details
unfolding index_of_rank details_of sort_desc distinct
rank_and_kickers hand = if not (length hand == 5) then raise value_error else do
  indices ← traverse (λ (c : Letters). index_of_rank c.rank) hand
  details_of (length (distinct (map (λ (c : Letters). c.suit) hand)) == 1)
      (is_run (sort_desc indices)) (ace_low (sort_desc indices))
