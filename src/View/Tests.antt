-- ===== src/View/Tests.antt =====
-- A player's view of a table by computation.
use adk_poker.Base.{ℕ, ◌≡◌, refl, List, [], ◌∷◌, codes}
use adk_poker.Result.{ok, raise, value_error, Yields}
use adk_poker.Cards.{Card, spades}
use adk_poker.Game.Offer.{offer_fold}
use adk_poker.View.Data.{GameState, to_dict, from_dict}
use adk_poker.View.State.{get_llm_game_state}
use adk_poker.View.RoundTrip.{from_dict-to_dict}
use adk_poker.View.Hidden.{other_cards, get_llm_game_state-hidden}
use adk_poker.Game.Tests.{program, opened}

abbrev ace : Card
ace = record { rank = 14; suit = spades }

abbrev all_aces : ℕ → List Card
all_aces id = ace ∷ ace ∷ []

view_run :
    Yields (λ s. (s.to_call ≡ 20) × (s.phase ≡ codes "preflop")) (get_llm_game_state 0 opened)
unfolding get_llm_game_state program
view_run = (_, refl, (refl, refl))

nobody : get_llm_game_state 7 opened ≡ raise value_error
unfolding get_llm_game_state program
nobody = refl

from_dict-empty : Yields (λ s. s.phase ≡ []) (from_dict [])
unfolding from_dict
from_dict-empty = (_, refl, refl)

abbrev some_state : GameState
some_state = record {
  your_id = 1;
  phase = codes "flop";
  your_cards = codes "A♠" ∷ codes "10♥" ∷ [];
  community = codes "2♣" ∷ codes "3♣" ∷ codes "4♣" ∷ [];
  your_chips = 900;
  your_bet_this_round = 0;
  your_total_bet_this_hand = 100;
  pot = 300;
  to_call = 50;
  dealer_button = 0;
  current_turn = 1;
  players = record { id = 0; chips = 800; bet = 50; status = codes "active" } ∷ [];
  actions = offer_fold ∷ [];
  history = [];
}

from_dict-to_dict_example : from_dict (to_dict some_state) ≡ ok some_state
from_dict-to_dict_example = from_dict-to_dict some_state

get_llm_game_state-hidden_example :
    get_llm_game_state 1 (other_cards all_aces (ace ∷ []) 1 opened) ≡ get_llm_game_state 1 opened
get_llm_game_state-hidden_example = get_llm_game_state-hidden all_aces 1 (ace ∷ []) opened
