-- ===== src/History/Reads.antt =====
-- The methods of GameHistoryDB that read the tables, and the functions for agents:
-- poker/game_history.py. Where the query asks for no order, rows come in the order of the table.
use adk_poker.Base.{
  ℕ, zero, suc, ◌+◌, max, Bool, true, false, List, [], ◌∷◌, ◌++◌, map, keep_if, ltb, ◌==◌,
  if◌then◌else◌, length, sum_of, Option, none, some,
}
use adk_poker.Base.Dict.{Dict, insert}
use adk_poker.Cards.{Card}
use adk_poker.Evaluator.{sort_desc, distinct}
use adk_poker.History.{
  Phase, same_phase, ActionType, small_blind, big_blind, fold, check, call, raise_to, all_in,
  HandRow, ActionRow, BoardRow, ShowdownRow, HistoryDb,
}

-- What `get_hand_history` returns. The rows of the community cards are a dict by their phases.
pub record HandHistory : Type 0 where
  pub hand : HandRow
  pub actions : List ActionRow
  pub community_cards : List (Phase × List Card)
  pub showdown_results : List ShowdownRow

unfoldable pub find_hand : ℕ → List HandRow → Option HandRow
find_hand hand_id [] = none
find_hand hand_id (row ∷ rows) =
    let rest = find_hand hand_id rows in if row.hand_id == hand_id then some row else rest

abbrev pub actions_of : ℕ → List ActionRow → List ActionRow
actions_of hand_id = keep_if (λ row. row.hand_id == hand_id)

-- `community_cards[row["phase"]] = …`
abbrev pub board_put : Phase → List Card → List (Phase × List Card) → List (Phase × List Card)
board_put phase cards [] = (phase, cards) ∷ []
board_put phase cards ((p, cs) ∷ boards) =
    let rest = board_put phase cards boards in
    if same_phase p phase then (p, cards) ∷ boards else (p, cs) ∷ rest

unfoldable pub boards_from : List (Phase × List Card) → ℕ → List BoardRow → List (Phase × List Card)
boards_from boards hand_id [] = boards
boards_from boards hand_id (row ∷ rows) =
    if row.hand_id == hand_id
    then boards_from (board_put row.phase row.cards boards) hand_id rows
    else boards_from boards hand_id rows

abbrev pub showdowns_of : ℕ → List ShowdownRow → List ShowdownRow
showdowns_of hand_id = keep_if (λ row. row.hand_id == hand_id)

-- `GameHistoryDB.get_hand_history`
unfoldable pub get_hand_history : ℕ → HistoryDb → Option HandHistory
unfolding find_hand boards_from
get_hand_history hand_id db = elim (find_hand hand_id db.hands) [
  | none ↦ none
  | some row ↦ some (record {
    hand = row;
    actions = actions_of hand_id db.actions;
    community_cards = boards_from [] hand_id db.community_cards;
    showdown_results = showdowns_of hand_id db.showdown_results;
  })
]

-- `LIMIT n`
abbrev pub take {ℓ} : {A : Type ℓ} → ℕ → List A → List A
take zero xs = []
take (suc n) [] = []
take (suc n) (x ∷ xs) = x ∷ take n xs

abbrev pub hand_ids : HistoryDb → List ℕ
hand_ids db = map (λ (row : HandRow). row.hand_id) db.hands

-- `GameHistoryDB.get_recent_hands`
unfoldable pub get_recent_hands : ℕ → HistoryDb → List (Option HandHistory)
unfolding get_hand_history sort_desc
get_recent_hands limit db =
    map (λ id. get_hand_history id db) (take limit (sort_desc (hand_ids db)))

abbrev pub same_action : ActionType → ActionType → Bool
same_action small_blind small_blind = true
same_action big_blind big_blind = true
same_action fold fold = true
same_action check check = true
same_action call call = true
same_action raise_to raise_to = true
same_action all_in all_in = true
same_action _ _ = false

abbrev pub all_actions : List ActionType
all_actions = small_blind ∷ big_blind ∷ fold ∷ check ∷ call ∷ raise_to ∷ all_in ∷ []

abbrev pub by_player : ℕ → List ActionRow → List ActionRow
by_player player_id = keep_if (λ row. row.player_id == player_id)

abbrev pub count_of : ActionType → List ActionRow → ℕ
count_of t [] = 0
count_of t (row ∷ rows) = (if same_action row.action_type t then 1 else 0) + count_of t rows

-- `GROUP BY action_type`: a count for each type that occurs.
unfoldable pub group_counts : List ActionType → List ActionRow → List (ActionType × ℕ)
group_counts [] rows = []
group_counts (t ∷ types) rows =
    let rest = group_counts types rows in
    if count_of t rows == 0 then rest else (t, count_of t rows) ∷ rest

pub record Stats : Type 0 where
  pub player_id : ℕ
  pub hands_played : ℕ
  pub action_counts : List (ActionType × ℕ)
  pub showdowns : ℕ
  pub showdown_wins : ℕ
  pub total_winnings : ℕ

abbrev pub showdowns_by : ℕ → List ShowdownRow → List ShowdownRow
showdowns_by player_id = keep_if (λ row. row.player_id == player_id)

-- `GameHistoryDB.get_player_action_stats`
unfoldable pub get_player_action_stats : ℕ → HistoryDb → Stats
unfolding group_counts distinct
get_player_action_stats player_id db =
    let rows = by_player player_id db.actions in
    let shown = showdowns_by player_id db.showdown_results in
    record {
      player_id = player_id;
      hands_played = length (distinct (map (λ (row : ActionRow). row.hand_id) rows));
      action_counts = group_counts all_actions rows;
      showdowns = length shown;
      showdown_wins = sum_of (λ (row : ShowdownRow). if ltb 0 row.winnings then 1 else 0) shown;
      total_winnings = sum_of (λ (row : ShowdownRow). row.winnings) shown;
    }

abbrev pub reverse {ℓ} : {A : Type ℓ} → List A → List A
reverse [] = []
reverse (x ∷ xs) = reverse xs ++ x ∷ []

-- `GameHistoryDB.get_player_recent_actions`: the newest first.
unfoldable pub get_player_recent_actions : ℕ → ℕ → HistoryDb → List ActionRow
get_player_recent_actions player_id limit db = take limit (reverse (by_player player_id db.actions))

-- The dict of `get_game_history`; a key that is not set is `none`.
pub record GameHistory : Type 0 where
  pub hand : Option (Option HandHistory)
  pub recent_hands : Option (List (Option HandHistory))
  pub player_stats : Option Stats
  pub recent_actions : Option (List ActionRow)

-- `get_game_history`
unfoldable pub get_game_history : Option ℕ → Option ℕ → ℕ → HistoryDb → GameHistory
unfolding get_hand_history get_recent_hands get_player_action_stats get_player_recent_actions
get_game_history hand_id player_id limit db = record {
  hand = elim hand_id [ none ↦ none | some id ↦ some (get_hand_history id db) ];
  recent_hands = elim hand_id [ none ↦ some (get_recent_hands limit db) | some id ↦ none ];
  player_stats = elim player_id [ none ↦ none | some id ↦ some (get_player_action_stats id db) ];
  recent_actions = elim player_id [
    | none ↦ none
    | some id ↦ some (get_player_recent_actions id limit db)
  ];
}

-- `get_opponent_stats`
unfoldable pub get_opponent_stats : List ℕ → HistoryDb → Dict Stats
unfolding get_player_action_stats
get_opponent_stats ids db = stats_from [] ids
  where
    stats_from : Dict Stats → List ℕ → Dict Stats
    stats_from d [] = d
    stats_from d (id ∷ ids) = stats_from (insert id (get_player_action_stats id db) d) ids

-- `MAX(hand_id)`; 0 counts as none.
abbrev pub max_id : List ℕ → ℕ
max_id [] = 0
max_id (x ∷ xs) = max x (max_id xs)

-- `get_last_hand_id`
unfoldable pub get_last_hand_id : HistoryDb → Option ℕ
get_last_hand_id db = let last = max_id (hand_ids db) in if last == 0 then none else some last
