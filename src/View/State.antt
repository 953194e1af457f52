-- ===== src/View/State.antt =====
-- `PokerGame.get_llm_game_state` of poker/game.py.
use adk_poker.Base.{
  ℕ, zero, suc, ◌-◌, Bool, ◌&&◌, not, List, [], ◌∷◌, ◌==◌, if◌then◌else◌, length, Text, codes,
}
use adk_poker.Result.{Result, ok, raise, value_error, or_raise, traverse, ◌>>=◌}
use adk_poker.Cards.Text.{card_text}
use adk_poker.Player
use adk_poker.Player.{Player, Status, is_busted}
use adk_poker.History.{Phase, preflop, flop, turn, river, showdown, finished}
use adk_poker.Game.State.{Game, find_player, not_busted}
use adk_poker.Game.Offer.{to_call, get_available_actions}
use adk_poker.View.Data.{PlayerInfo, GameState}

-- `GamePhase.value`
abbrev pub phase_value : Phase → Text
phase_value preflop = codes "preflop"
phase_value flop = codes "flop"
phase_value turn = codes "turn"
phase_value river = codes "river"
phase_value showdown = codes "showdown"
phase_value finished = codes "finished"

-- `PlayerStatus.value`
abbrev pub status_value : Status → Text
status_value Player.active = codes "active"
status_value Player.folded = codes "folded"
status_value Player.all_in = codes "all_in"
status_value Player.busted = codes "busted"

-- The other players who have not busted.
abbrev is_opponent : ℕ → Player → Bool
is_opponent id p = not (p.id == id) && not_busted p

abbrev pub info_of : Player → PlayerInfo
info_of p = record {
  id = p.id;
  chips = p.chips;
  bet = p.current_bet;
  status = status_value p.status;
}

-- The loop over the players.
unfoldable pub players_info : ℕ → List Player → List PlayerInfo
players_info id [] = []
players_info id (p ∷ ps) =
    let rest = players_info id ps in if is_opponent id p then info_of p ∷ rest else rest

-- `xs[-n:]`, for a positive n
abbrev drop {ℓ} : {A : Type ℓ} → ℕ → List A → List A
drop zero xs = xs
drop (suc n) [] = []
drop (suc n) (x ∷ xs) = drop n xs

abbrev pub last_few {ℓ} : {A : Type ℓ} → ℕ → List A → List A
last_few n xs = drop (length xs - n) xs

-- The player is known, and has not busted.
unfoldable pub viewer : ℕ → List Player → Result Player
viewer id players = do
  p ← or_raise (find_player id players) value_error
  if is_busted p.status then raise value_error else ok p

-- `PokerGame.get_llm_game_state`
unfoldable pub get_llm_game_state : ℕ → Game → Result GameState
unfolding viewer players_info get_available_actions card_text
get_llm_game_state id g = do
  player ← viewer id g.players
  your_cards ← traverse card_text player.hole_cards
  community ← traverse card_text g.community_cards
  ok (record {
    your_id = id;
    phase = phase_value g.current_phase;
    your_cards = your_cards;
    community = community;
    your_chips = player.chips;
    your_bet_this_round = player.current_bet;
    your_total_bet_this_hand = player.total_bet_this_hand;
    pot = g.pot;
    to_call = to_call g player;
    dealer_button = g.dealer_button;
    current_turn = g.current_player_index;
    players = players_info id g.players;
    actions = get_available_actions id g;
    history = last_few 20 g.action_history;
  })
