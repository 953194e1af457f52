-- ===== src/Game/Action.antt =====
-- `PokerGame.process_player_action`. The action is the text that the
-- caller passes; `other` is any text that no branch knows. The amount is an integer of either sign.
use adk_poker.Base.{
  ℕ, ◌+◌, ◌-◌, Bool, true, false, not, ltb, leb, ◌==◌, if◌then◌else◌, Option, none, some,
}
use adk_poker.Base.Int.{ℤ, pos, ◌+ℤ◌, ◌-ℤ◌, ltb_ℤ}
use adk_poker.Player
use adk_poker.Player.{Player, is_active, bet}
use adk_poker.History.{ActionType}
use adk_poker.Game.State.{
  Game, Entry, did_fold, did_check, did_call, did_raise, did_all_in, find_player, put_player,
  log_entry, log_action,
}
use adk_poker.Game.Round.{advance_to_next_player, check_betting_round_complete}

pub data Action : Type 0 where
  fold check call raise_to all_in other : Action

-- Writes the player back, and adds what was bet to the pot.
abbrev pub pay : Game → Player → ℕ → Game
pay g p amount = record g { players = put_player p.id p g.players; pot = g.pot + amount }

unfoldable pub perform_call : Game → Player → Option (Game × Entry)
perform_call g p =
    if leb g.current_bet p.current_bet
    then some (g, did_check p.id)
    else if ltb p.chips (g.current_bet - p.current_bet)
    then none
    else let (p', paid) = bet (pos (g.current_bet - p.current_bet)) p in
      some (pay g p' paid, did_call p.id paid)

-- `to_call + amount`
abbrev pub raise_total : Game → Player → ℤ → ℤ
raise_total g p amount = (pos g.current_bet -ℤ pos p.current_bet) +ℤ amount

unfoldable pub perform_raise : Game → Player → ℤ → Option (Game × Entry)
perform_raise g p amount =
    if ltb_ℤ (pos p.chips) (raise_total g p amount)
    then none
    else let (p', paid) = bet (raise_total g p amount) p in
      some (
        record (pay g p' paid) {
          current_bet = p'.current_bet;
          last_raiser_index = some p.id;
          has_bet_or_raise_this_round = true;
        },
        did_raise p.id p'.current_bet,
      )

-- An all-in above the current bet counts as a raise.
unfoldable pub all_in_raise : Game → Player → Game
all_in_raise g p =
    if ltb g.current_bet p.current_bet
    then record g {
      current_bet = p.current_bet;
      last_raiser_index = some p.id;
      has_bet_or_raise_this_round = true;
    }
    else g

unfoldable pub perform_all_in : Game → Player → Option (Game × Entry)
unfolding all_in_raise
perform_all_in g p =
    if p.chips == 0
    then none
    else let (p', paid) = bet (pos p.chips) p in
      some
        (all_in_raise (pay g (record p' { status = Player.all_in }) paid) p', did_all_in p.id paid)

-- The branches of `process_player_action`; `none` is `return False`.
unfoldable pub perform : Game → Player → Action → ℤ → Option (Game × Entry)
unfolding perform_call perform_raise perform_all_in Player.fold
perform g p fold amount =
    some (record g { players = put_player p.id (Player.fold p) g.players }, did_fold p.id)
perform g p check amount =
    if ltb p.current_bet g.current_bet then none else some (g, did_check p.id)
perform g p call amount = perform_call g p
perform g p raise_to amount = perform_raise g p amount
perform g p all_in amount = perform_all_in g p
perform g p other amount = none

-- The text of the action in the `actions` table.
abbrev pub action_type : Action → ActionType
action_type fold = ActionType.fold
action_type check = ActionType.check
action_type call = ActionType.call
action_type raise_to = ActionType.raise_to
action_type all_in = ActionType.all_in
action_type other = ActionType.fold

-- The amount in the `actions` table, from the state after the action.
unfoldable pub recorded_amount : Game → ℕ → Action → ℤ → ℤ
recorded_amount g id raise_to amount = amount
recorded_amount g id all_in amount = amount
recorded_amount g id call amount = elim (find_player id g.players) [
  | none ↦ pos 0
  | some p ↦ pos g.current_bet -ℤ (pos p.current_bet -ℤ amount)
]
recorded_amount g id _ amount = pos 0

-- What follows a successful branch: history, database, next player, end of the round.
unfoldable pub finish : Action → ℤ → ℕ → Game × Entry → Game
finish action amount id (g, entry) =
    let g' =
      log_action g.current_phase id (action_type action) (recorded_amount g id action amount)
        (log_entry entry g) in
    check_betting_round_complete (advance_to_next_player g')

-- The guards: it is the player's turn, the player exists, and is active.
unfoldable pub acting_player : ℕ → Game → Option Player
acting_player id g =
    if not (id == g.current_player_index) then none else elim (find_player id g.players) [
      | none ↦ none
      | some p ↦ if is_active p.status then some p else none
    ]

-- `process_player_action`: the state afterwards, and the returned flag.
unfoldable pub process_player_action : ℕ → Action → ℤ → Game → Game × Bool
unfolding acting_player perform
process_player_action id action amount g = elim (acting_player id g) [
  | none ↦ (g, false)
  | some p ↦ elim (perform g p action amount) [
    | none ↦ (g, false)
    | some done ↦ (finish action amount id done, true)
  ]
]
