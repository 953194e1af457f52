-- ===== src/Game/Tests.antt =====
-- Hands played by computation.
use adk_poker.Game.Apart.{seen, play-Apart}
use adk_poker.Game.Refusal.{Allowed, process_iff}
use adk_poker.Base.{
  ◌↔◌, ℕ, zero, suc, ◌+◌, ◌≤◌, ◌<◌, All, ◌≡◌, ◌==◌, refl, List, [], ◌∷◌, none, some, map, false,
  true, length, keep_if, arith,
}
use adk_poker.Base.Int.{pos, negsuc, ◌+ℤ◌, ◌-ℤ◌}
use adk_poker.Result.{Result, ok, raise, Yields, ◌>>=◌}
use adk_poker.Cards.{Card, hearts, reset_deck, deal_card}
use adk_poker.Player
use adk_poker.Player.{Player, new_player, bet, add_hole_card}
use adk_poker.History
use adk_poker.History.{preflop}
use adk_poker.Game.State.{
  Game, ShowdownResult, in_hand, stacks, new_game, add_player, find_player, put_player, seats_from,
  log_action,
}
use adk_poker.Game.Round.{advance_to_next_player, check_betting_round_complete}
use adk_poker.Game.Action.{
  fold, call, raise_to, finish, acting_player, recorded_amount, process_player_action,
}
use adk_poker.Game.Hand.Start.{Started, start_new_hand-Started}
use adk_poker.Game.Board.{advance_to_next_phase}
use adk_poker.Game.Board.Advance.{Moved, phase_after, advance_to_next_phase-Moved}
use adk_poker.Game.Showdown.{conduct_showdown}
use adk_poker.Game.Showdown.Layers.{DistinctIds}
use adk_poker.Game.Play.{Steps, done, next, act, Sound, play-Sound, play-Conserves}
use adk_poker.Game.Offer.{Accepted, get_available_actions, get_available_actions-Accepted}
use adk_poker.Game.Lowered.{process-lowers}
use adk_poker.Game.Rotation.{
  Rotated, Matched, process-Rotated, check_betting_round_complete-Matched,
}
use adk_poker.Game.Money.{Conserves, process-Conserves}
use adk_poker.Game.Hand.{
  start_new_hand, move_dealer_button, next_dealer, blind_seats, post_blind, index_from, flag_dealer,
  post_blinds, deal_round, deal_hole_cards, set_first_actor_preflop, clear_table, open_hand,
}

-- All that a run computes with.
unfoldable pub program : Unit {0}
unfolding new_game reset_deck new_player add_player bet find_player put_player seats_from log_action
    History.new_db History.record_action History.start_new_hand Player.reset_for_new_hand
    add_hole_card advance_to_next_player check_betting_round_complete finish process_player_action
    start_new_hand move_dealer_button next_dealer blind_seats post_blind index_from flag_dealer
    post_blinds deal_round deal_hole_cards set_first_actor_preflop clear_table open_hand deal_card
    acting_player recorded_amount ◌+ℤ◌ ◌-ℤ◌
program = tt

abbrev pub keep_order : List Card → List Card
keep_order cards = cards

abbrev three : Result Game
three = do
  g ← new_game keep_order 10 20 2000
  g1 ← add_player (new_player 0 2000) g
  g2 ← add_player (new_player 1 2000) g1
  g3 ← add_player (new_player 2 2000) g2
  start_new_hand keep_order g3

pots : Result Game → Result (List ℕ)
pots r = r >>= λ g. ok (
    g.pot
    ∷ g.current_bet
    ∷ g.dealer_button
    ∷ g.current_player_index
    ∷ map (λ (p : Player). p.chips) g.players)

three_run : pots three ≡ ok (30 ∷ 20 ∷ 1 ∷ 1 ∷ 1980 ∷ 2000 ∷ 1990 ∷ [])
unfolding program pots
three_run = refl

abbrev pub seated : ℕ → ℕ → ℕ → Player
seated id chips staked = record {
  id = id;
  chips = chips;
  hole_cards = [];
  current_bet = staked;
  total_bet_this_hand = staked;
  status = Player.active;
  is_dealer = id == 0;
  is_small_blind = id == 1;
  is_big_blind = id == 2;
}

-- Three players before the flop, the first of them to act.
abbrev pub opened : Game
opened = record {
  small_blind = 10;
  big_blind = 20;
  initial_chips = 2000;
  players = seated 0 2000 0 ∷ seated 1 1990 10 ∷ seated 2 1980 20 ∷ [];
  dealer_button = 0;
  current_player_index = 0;
  deck = [];
  community_cards = [];
  current_phase = preflop;
  pot = 30;
  current_bet = 20;
  hand_number = 1;
  betting_round_complete = false;
  last_raiser_index = some 2;
  has_bet_or_raise_this_round = false;
  action_history = [];
  last_showdown_results = none;
  db = History.new_db;
  current_hand_id = none;
}

process-Conserves_example : Conserves opened (process_player_action 0 raise_to (pos 40) opened).0
process-Conserves_example = process-Conserves 0 raise_to (pos 40) opened

abbrev cards_of : ℕ → List Card
cards_of zero = []
cards_of (suc n) = record { rank = suc (suc n); suit = hearts } ∷ cards_of n

-- Three players before a hand.
abbrev seats_three : Game
seats_three = record opened { players = seated 0 2000 0 ∷ seated 1 2000 0 ∷ seated 2 2000 0 ∷ [] }

abbrev pub ok_or : Game → Result Game → Game
ok_or g (ok h) = h
ok_or g (raise e) = g

abbrev started : Game
started = ok_or opened (start_new_hand keep_order seats_three)

-- The player on the button calls, and the next one folds; the phase does not change yet.
abbrev called : Game
called = (process_player_action 1 call (pos 0) started).0

abbrev folded : Game
folded = (process_player_action 2 fold (pos 0) called).0

two_turns : Steps started folded
two_turns = next (next done (act 1 call (pos 0))) (act 2 fold (pos 0))

three_started : start_new_hand keep_order seats_three ≡ ok started
unfolding program
three_started = refl

two_left : 2 ≤ length (keep_if in_hand folded.players)
unfolding program
two_left = omega arith

-- A complete round before the flop, with nine cards in the deck.
abbrev after_bets : Game
after_bets = record opened { betting_round_complete = true; deck = cards_of 9 }

three_ids : DistinctIds seats_three.players
three_ids = ground arith

play-Sound_example : Sound seats_three.players folded
play-Sound_example =
    play-Sound keep_order seats_three started folded (λ cards. refl) (omega arith) (omega arith)
      three_started two_turns

play-Apart_example : seen (record { rank = 14; suit = hearts }) folded ≤ 1
play-Apart_example =
    play-Apart keep_order seats_three started folded (λ cards. refl) (λ c cards. refl) (omega arith)
      (omega arith) three_started two_turns 14 hearts (omega arith) (omega arith)

play-Conserves_example :
    (r : Game) × (s : ShowdownResult) × (conduct_showdown folded ≡ ok (r, s))
    × (stacks r.players + r.pot ≡ stacks seats_three.players)
play-Conserves_example =
    play-Conserves keep_order seats_three started folded (λ cards. refl) (omega arith) (omega arith)
      three_started two_turns three_ids two_left

start_new_hand-Started_example :
    Yields (Started keep_order seats_three) (start_new_hand keep_order seats_three)
start_new_hand-Started_example =
    start_new_hand-Started keep_order seats_three (λ cards. refl) (omega arith) (omega arith)

advance_to_next_phase-Moved_example :
    Yields (Moved after_bets (phase_after after_bets)) (advance_to_next_phase after_bets)
advance_to_next_phase-Moved_example = advance_to_next_phase-Moved after_bets (refl, omega arith)

get_available_actions-Accepted_example :
    All (Accepted 0 opened) (get_available_actions 0 opened)
    × (0 < length (get_available_actions 0 opened))
unfolding program
get_available_actions-Accepted_example =
    get_available_actions-Accepted 0 opened (seated 0 2000 0) refl

process-Rotated_example : Rotated 0 (process_player_action 0 call (pos 0) opened).0
unfolding program
process-Rotated_example = process-Rotated 0 call (pos 0) opened refl

process_iff_example :
    (((process_player_action 0 raise_to (pos 1981) opened).1 ≡ true)
      ↔ Allowed 0 raise_to (pos 1981) opened)
    × ((process_player_action 0 raise_to (pos 1981) opened).1 ≡ false
        → (process_player_action 0 raise_to (pos 1981) opened).0 ≡ opened)
process_iff_example = process_iff 0 raise_to (pos 1981) opened

-- Everybody has called a raise.
abbrev all_called : Game
all_called = record opened {
  players = seated 0 1960 40 ∷ seated 1 1960 40 ∷ seated 2 1960 40 ∷ [];
  current_bet = 40;
  last_raiser_index = some 0;
  has_bet_or_raise_this_round = true;
}

check_betting_round_complete-Matched_example : Matched all_called
unfolding program
check_betting_round_complete-Matched_example =
    check_betting_round_complete-Matched all_called refl refl (omega arith)

process-lowers_example :
    ((process_player_action 0 raise_to (negsuc 4) opened).1 ≡ true)
    × ((process_player_action 0 raise_to (negsuc 4) opened).0.current_bet < opened.current_bet)
unfolding program
process-lowers_example =
    process-lowers 0 opened (seated 0 2000 0) 4 refl (omega arith) (omega arith)
