-- ===== src/History.antt =====
-- The hand history that the game writes: poker/game_history.py, the writing methods of
-- GameHistoryDB. Its tables are lists of rows, oldest first; nothing deletes a row, so the
-- AUTOINCREMENT key of `hands` is the number of rows with the new one. Times are left out; a card,
-- a hand and a list of ids are stored as they are and not as text. The file, the connection and
-- the commits are sqlite's.
pub mod Reads
pub mod Book
pub mod Rows
pub mod Hands
pub mod Refined
pub mod Figures
mod Tests
use adk_poker.Base.{
  ℕ, suc, Bool, true, false, ◌&&◌, List, [], ◌∷◌, ◌++◌, ◌==◌, if◌then◌else◌, length, Option,
  keep_if, not,
}
use adk_poker.Base.Int.{ℤ}
use adk_poker.Cards.{Card}
use adk_poker.Ranking.{HandResult}

-- `GamePhase`
pub data Phase : Type 0 where
  preflop flop turn river showdown finished : Phase

abbrev pub same_phase : Phase → Phase → Bool
same_phase preflop preflop = true
same_phase flop flop = true
same_phase turn turn = true
same_phase river river = true
same_phase showdown showdown = true
same_phase finished finished = true
same_phase _ _ = false

-- The action texts of the `actions` table.
pub data ActionType : Type 0 where
  small_blind big_blind fold check call raise_to all_in : ActionType

pub record HandRow : Type 0 where
  pub hand_id : ℕ
  pub small_blind : ℕ
  pub big_blind : ℕ
  pub dealer_button : ℕ
  pub player_ids : List ℕ
  pub ended : Bool

pub record ActionRow : Type 0 where
  pub hand_id : ℕ
  pub phase : Phase
  pub player_id : ℕ
  pub action_type : ActionType
  pub amount : ℤ
  pub pot_after : ℕ

pub record BoardRow : Type 0 where
  pub hand_id : ℕ
  pub phase : Phase
  pub cards : List Card

pub record ShowdownRow : Type 0 where
  pub hand_id : ℕ
  pub player_id : ℕ
  pub hole_cards : List Card
  pub hand_rank : Option HandResult
  pub winnings : ℕ

pub record HistoryDb : Type 0 where
  pub hands : List HandRow
  pub actions : List ActionRow
  pub community_cards : List BoardRow
  pub showdown_results : List ShowdownRow

-- The tables as `_create_tables` leaves a new file.
unfoldable pub new_db : HistoryDb
new_db = record { hands = []; actions = []; community_cards = []; showdown_results = [] }

-- `GameHistoryDB.start_new_hand`: the new `hand_id`, and the tables.
unfoldable pub start_new_hand : ℕ → ℕ → ℕ → List ℕ → HistoryDb → ℕ × HistoryDb
start_new_hand sb bb dealer ids db =
    let hand_id = suc (length db.hands) in
    (
      hand_id,
      record db {
        hands =
            db.hands
            ++ record {
              hand_id = hand_id;
              small_blind = sb;
              big_blind = bb;
              dealer_button = dealer;
              player_ids = ids;
              ended = false;
            }
              ∷ [];
      },
    )

-- `GameHistoryDB.record_action`
unfoldable pub record_action : ActionRow → HistoryDb → HistoryDb
record_action row db = record db { actions = db.actions ++ row ∷ [] }

abbrev pub other_board : BoardRow → BoardRow → Bool
other_board row old = not (old.hand_id == row.hand_id && same_phase old.phase row.phase)

-- `GameHistoryDB.record_community_cards`: INSERT OR REPLACE on the key (hand_id, phase).
unfoldable pub record_community_cards : BoardRow → HistoryDb → HistoryDb
record_community_cards row db = record db {
  community_cards = keep_if (other_board row) db.community_cards ++ row ∷ [];
}

abbrev pub other_showdown : ShowdownRow → ShowdownRow → Bool
other_showdown row old = not (old.hand_id == row.hand_id && old.player_id == row.player_id)

-- `GameHistoryDB.record_showdown`: INSERT OR REPLACE on the key (hand_id, player_id).
unfoldable pub record_showdown : ShowdownRow → HistoryDb → HistoryDb
record_showdown row db = record db {
  showdown_results = keep_if (other_showdown row) db.showdown_results ++ row ∷ [];
}

unfoldable pub end_rows : ℕ → List HandRow → List HandRow
end_rows hand_id [] = []
end_rows hand_id (row ∷ rows) =
    (if row.hand_id == hand_id then record row { ended = true } else row) ∷ end_rows hand_id rows

-- `GameHistoryDB.end_hand`
unfoldable pub end_hand : ℕ → HistoryDb → HistoryDb
unfolding end_rows
end_hand hand_id db = record db { hands = end_rows hand_id db.hands }
