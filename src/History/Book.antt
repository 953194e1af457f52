-- ===== src/History/Book.antt =====
-- The history as a book of hands, without tables: what the methods of GameHistoryDB in
-- poker/game_history.py promise. The order of rows and the replaced rows are forgotten here.
use adk_poker.Base.{
  false, true, ℕ, suc, ◌&&◌, List, [], ◌∷◌, ◌++◌, ◌==◌, if◌then◌else◌, Option, none, some,
}
use adk_poker.Cards.{Card}
use adk_poker.History.{
  Phase, same_phase, HandRow, ActionRow, BoardRow, ShowdownRow, HistoryDb, start_new_hand,
  record_action, record_community_cards, record_showdown, end_hand,
}

-- One call of a writing method.
pub data Write : Type 0 where
  new_hand : ℕ → ℕ → ℕ → List ℕ → Write
  action : ActionRow → Write
  board : BoardRow → Write
  shown : ShowdownRow → Write
  ended : ℕ → Write

unfoldable pub write : Write → HistoryDb → HistoryDb
unfolding start_new_hand record_action record_community_cards record_showdown end_hand
write (new_hand sb bb dealer ids) db = (start_new_hand sb bb dealer ids db).1
write (action row) db = record_action row db
write (board row) db = record_community_cards row db
write (shown row) db = record_showdown row db
write (ended hand_id) db = end_hand hand_id db

unfoldable pub replay : List Write → HistoryDb → HistoryDb
unfolding write
replay [] db = db
replay (w ∷ ws) db = replay ws (write w db)

-- The number of hands, and for each hand id what is known of it: its blinds, its dealer, its players
-- and whether it has ended; its actions, its board and its showdown.
pub record Book : Type 0 where
  pub hands : ℕ
  pub hand : ℕ → Option HandRow
  pub actions : ℕ → List ActionRow
  pub board : ℕ → Phase → Option (List Card)
  pub shown : ℕ → ℕ → Option ShowdownRow

unfoldable pub empty_book : Book
empty_book = record {
  hands = 0;
  hand = λ id. none;
  actions = λ id. [];
  board = λ id phase. none;
  shown = λ id player. none;
}

abbrev pub end_of : Option HandRow → Option HandRow
end_of none = none
end_of (some row) = some (record row { ended = true })

unfoldable pub enter : Write → Book → Book
enter (new_hand sb bb dealer ids) b = record b {
  hands = suc b.hands;
  hand = λ id.
      if suc b.hands == id
      then some (record {
        hand_id = id;
        small_blind = sb;
        big_blind = bb;
        dealer_button = dealer;
        player_ids = ids;
        ended = false;
      })
      else b.hand id;
}
enter (action row) b = record b {
  actions = λ id. if row.hand_id == id then b.actions id ++ row ∷ [] else b.actions id;
}
enter (board row) b = record b {
  board = λ id phase.
      if row.hand_id == id && same_phase row.phase phase then some row.cards else b.board id phase;
}
enter (shown row) b = record b {
  shown = λ id player.
      if row.hand_id == id && row.player_id == player then some row else b.shown id player;
}
enter (ended hand_id) b = record b {
  hand = λ id. if hand_id == id then end_of (b.hand id) else b.hand id;
}

unfoldable pub enter_all : List Write → Book → Book
unfolding enter
enter_all [] b = b
enter_all (w ∷ ws) b = enter_all ws (enter w b)
