-- ===== src/Preflop/Classify.antt =====
-- Hand classes before the flop: agents/team1_agent/preflop/tools/hand_category.py and
-- hand_classifier.py. A returned dict with the key "error" is a `raise` here, as its callers treat
-- it. The debug output is left out.
use adk_poker.Base.{
  ℕ, List, [], ◌∷◌, ◌++◌, map, ltb, if◌then◌else◌, none, some, Text, codes, same_text, strip,
  remove, to_upper, last_of, drop_last, occurs_in, text_lookup, ◌==◌,
}
use adk_poker.Result.{Result, ok, raise, value_error, index_error, ◌>>=◌}

pub data HandCategory : Type 0 where
  navy red yellow green blue white gray : HandCategory

-- `HandCategory.value`
abbrev pub category_value : HandCategory → Text
category_value navy = codes "AA, KK, AKs, AKo, QQ"
category_value red = codes "JJ, TT, 99, AQs, AJs, ATs, KQs, AQo, KQo, AJo"
category_value yellow = codes "88, 77, KJs, QJs, JTs, ATo, KTs, A9s, A8s"
category_value green = codes "66, 55, A7s, A6s, A5s, A4s, A3s, A2s, K9s, QTs, T9s, KJo"
category_value blue = codes "44, 33, 22, Q9s, J9s, T8s, 98s, QJo, KTo, JTo, A9o, QTo, K8s"
category_value white =
    codes "K7s, K6s, K5s, K4s, K3s, K2s, Q8s, Q7s, Q6s, J8s, J7s, 97s, 87s, 76s, 65s, K9o, "
    ++ codes "Q9o, J9o, T9o, A8o, K8o, A7o, A6o, A5o, A4o, A3o, A2o, T8o, 98o, Q5s, Q4s, Q3s, "
    ++ codes "Q2s, J6s, T7s, 96s, 86s, 75s, 64s, 54s"
category_value gray = codes "それ以外"

-- `category_score_map`
abbrev pub category_score : HandCategory → ℕ
category_score navy = 6
category_score red = 5
category_score yellow = 4
category_score green = 3
category_score blue = 2
category_score white = 1
category_score gray = 0

abbrev pub all_categories : List HandCategory
all_categories = navy ∷ red ∷ yellow ∷ green ∷ blue ∷ white ∷ gray ∷ []

abbrev pub rank_strength : List (Text × ℕ)
rank_strength =
    (codes "A", 14)
    ∷ (codes "K", 13)
    ∷ (codes "Q", 12)
    ∷ (codes "J", 11)
    ∷ (codes "T", 10)
    ∷ (codes "9", 9)
    ∷ (codes "8", 8)
    ∷ (codes "7", 7)
    ∷ (codes "6", 6)
    ∷ (codes "5", 5)
    ∷ (codes "4", 4)
    ∷ (codes "3", 3)
    ∷ (codes "2", 2)
    ∷ []

-- `rank_strength.get(rank, 0)`
unfoldable pub strength_of : Text → ℕ
strength_of rank = elim (text_lookup rank rank_strength) [ none ↦ 0 | some n ↦ n ]

-- The rank of a card's text, with 10 written as T.
abbrev pub rank_of_text : Text → Text
rank_of_text card =
    let raw = map to_upper (drop_last card) in if same_text raw (codes "10") then codes "T" else raw

-- `card[-1]`
abbrev pub suit_of_text : Text → Result ℕ
suit_of_text [] = raise index_error
suit_of_text (c ∷ s) = ok (last_of c s)

-- What `_convert_to_hand_notation` makes of two ranks and two suits.
abbrev pub join_ranks : Text → Text → ℕ → ℕ → Text
join_ranks rank1 rank2 suit1 suit2 =
    let suffix = if suit1 == suit2 then codes "s" else codes "o" in
    if same_text rank1 rank2
    then rank1 ++ rank2
    else if ltb (strength_of rank1) (strength_of rank2)
    then rank2 ++ rank1 ++ suffix
    else rank1 ++ rank2 ++ suffix

-- `_convert_to_hand_notation`
unfoldable pub hand_notation : Text → Text → Result Text
unfolding strength_of
hand_notation card1 card2 = do
  suit1 ← suit_of_text (strip card1)
  suit2 ← suit_of_text (strip card2)
  ok (join_ranks (rank_of_text (strip card1)) (rank_of_text (strip card2)) suit1 suit2)

-- The loop over the categories; hands that no category names are gray.
unfoldable pub find_category : List HandCategory → Text → HandCategory
find_category [] hand = gray
find_category (category ∷ categories) hand =
    let rest = find_category categories hand in
    if occurs_in hand (remove b' ' (category_value category)) then category else rest

pub record HandClass : Type 0 where
  pub hole_cards : List Text
  pub category : HandCategory
  pub score : ℕ
  pub position : Text

-- The class of a hand in its notation.
unfoldable pub class_of : List Text → Text → Text → HandClass
unfolding find_category
class_of hole_cards position hand =
    let category = find_category all_categories hand in
    record {
      hole_cards = hole_cards;
      category = category;
      score = category_score category;
      position = position;
    }

-- `classify_hand`
unfoldable pub classify_hand : List Text → Text → Result HandClass
unfolding hand_notation class_of
classify_hand (card1 ∷ card2 ∷ []) position = do
  hand ← hand_notation card1 card2
  ok (class_of (card1 ∷ card2 ∷ []) position hand)
classify_hand _ position = raise value_error
