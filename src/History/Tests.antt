-- ===== src/History/Tests.antt =====
-- The history written and read by computation: poker/game_history.py.
use adk_poker.Base.{ℕ, ◌≤◌, ◌≡◌, refl, List, [], ◌∷◌, none, some, ◌==◌, if◌then◌else◌}
use adk_poker.Base.Int.{pos}
use adk_poker.Cards.{Card, spades}
use adk_poker.History.{preflop, flop, fold, call, HistoryDb, new_db}
use adk_poker.History.Reads.{get_last_hand_id, get_player_action_stats}
use adk_poker.History.Book.{Write, new_hand, action, board, ended, replay, empty_book, enter_all}
use adk_poker.History.Refined.{Told, replay-Told}
use adk_poker.History.Figures.{Consistent, get_player_action_stats-Consistent}

abbrev ace : Card
ace = record { rank = 14; suit = spades }

abbrev log : List Write
log =
    new_hand 10 20 0 (0 ∷ 1 ∷ [])
    ∷ action (record {
      hand_id = 1;
      phase = preflop;
      player_id = 0;
      action_type = call;
      amount = pos 10;
      pot_after = 40;
    })
    ∷ board (record { hand_id = 1; phase = flop; cards = [] })
    ∷ board (record { hand_id = 1; phase = flop; cards = ace ∷ ace ∷ ace ∷ [] })
    ∷ action (record {
      hand_id = 1;
      phase = flop;
      player_id = 0;
      action_type = fold;
      amount = pos 0;
      pot_after = 40;
    })
    ∷ ended 1
    ∷ new_hand 10 20 1 (0 ∷ 1 ∷ [])
    ∷ []

abbrev db : HistoryDb
db = replay log new_db

last_run : get_last_hand_id db ≡ some 2
unfolding get_last_hand_id replay new_db
last_run = refl

stats_run : (get_player_action_stats 0 db).action_counts ≡ (fold, 1) ∷ (call, 1) ∷ []
unfolding get_player_action_stats replay new_db
stats_run = refl

replay-Told_example :
    (get_last_hand_id db ≡ (
      if (enter_all log empty_book).hands == 0
      then none
      else some (enter_all log empty_book).hands))
    × ((id : ℕ)
        → 1 ≤ id
        → id ≤ (enter_all log empty_book).hands
        → Told id db (enter_all log empty_book))
replay-Told_example = replay-Told log

get_player_action_stats-Consistent_example : Consistent db (get_player_action_stats 0 db)
get_player_action_stats-Consistent_example = get_player_action_stats-Consistent 0 db
