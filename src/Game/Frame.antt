-- ===== src/Game/Frame.antt =====
-- The bookkeeping at the end of `process_player_action`.
use adk_poker.Base.{ℕ, ◌≡◌, arith}
use adk_poker.Base.Int.{ℤ}
use adk_poker.History.{Phase, ActionType}
use adk_poker.Game.State.{Game, Entry, log_action, log_entry}
use adk_poker.Game.Round.{advance_to_next_player, check_betting_round_complete}
use adk_poker.Game.Action.{Action, finish, recorded_amount, action_type}

-- The two states agree in all that money and cards depend on.
pub record SameTable (g h : Game) : Type 0 where
  pub players : h.players ≡ g.players
  pub pot : h.pot ≡ g.pot
  pub current_bet : h.current_bet ≡ g.current_bet
  pub last_raiser_index : h.last_raiser_index ≡ g.last_raiser_index
  pub current_phase : h.current_phase ≡ g.current_phase
  pub deck : h.deck ≡ g.deck
  pub community_cards : h.community_cards ≡ g.community_cards

SameTable-trans : {f g h : Game} → SameTable f g → SameTable g h → SameTable f h
SameTable-trans a b = ground arith

entry-SameTable : (e : Entry) (g : Game) → SameTable g (log_entry e g)
entry-SameTable e g = ground arith

pub log_action-SameTable :
    (phase : Phase) (id : ℕ) (action : ActionType) (amount : ℤ) (g : Game)
    → SameTable g (log_action phase id action amount g)
unfolding log_action
log_action-SameTable phase id action amount g = ground arith

pub advance-SameTable : (g : Game) → SameTable g (advance_to_next_player g)
unfolding advance_to_next_player
advance-SameTable g = ground arith

pub check-SameTable : (g : Game) → SameTable g (check_betting_round_complete g)
unfolding check_betting_round_complete
check-SameTable g = ground arith

pub finish-SameTable :
    (action : Action) (amount : ℤ) (id : ℕ) (g : Game) (e : Entry)
    → SameTable g (finish action amount id (g, e))
unfolding finish
finish-SameTable action amount id g e =
    let paid = recorded_amount g id action amount in
    let logged = log_action g.current_phase id (action_type action) paid (log_entry e g) in
    let l = log_action-SameTable g.current_phase id (action_type action) paid (log_entry e g) in
    SameTable-trans (SameTable-trans (entry-SameTable e g) l)
      (SameTable-trans (advance-SameTable logged) (check-SameTable (advance_to_next_player logged)))
