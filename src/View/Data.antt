-- ===== src/View/Data.antt =====
-- `PlayerInfo` and `GameState` of poker/game_models.py, with `to_dict` and `from_dict`. An offered
-- action and a line of the history are kept as elsewhere: a format string with what is put in. An
-- entry of a dict whose type is not that of its field has no counterpart here, and `from_dict` is
-- `unmodelled` at it, where the source checks no types.
use adk_poker.Base.{ℕ, List, [], ◌∷◌, map, Option, none, some, Text, codes, text_lookup}
use adk_poker.Result.{Result, ok, raise, unmodelled, key_error, or_raise, traverse, ◌>>=◌}
use adk_poker.Game.State.{Entry}
use adk_poker.Game.Offer.{Offer}

pub record PlayerInfo : Type 0 where
  pub id : ℕ
  pub chips : ℕ
  pub bet : ℕ
  pub status : Text

pub record GameState : Type 0 where
  pub your_id : ℕ
  pub phase : Text
  pub your_cards : List Text
  pub community : List Text
  pub your_chips : ℕ
  pub your_bet_this_round : ℕ
  pub your_total_bet_this_hand : ℕ
  pub pot : ℕ
  pub to_call : ℕ
  pub dealer_button : ℕ
  pub current_turn : ℕ
  pub players : List PlayerInfo
  pub actions : List Offer
  pub history : List Entry

-- The entries of a player's dict, and those of a state's.
pub data Scalar : Type 0 where
  number : ℕ → Scalar
  text : Text → Scalar

abbrev pub InfoDict : Type 0
InfoDict = List (Text × Scalar)

pub data Value : Type 0 where
  number : ℕ → Value
  text : Text → Value
  texts : List Text → Value
  infos : List InfoDict → Value
  offers : List Offer → Value
  lines : List Entry → Value

abbrev pub StateDict : Type 0
StateDict = List (Text × Value)

abbrev pub info_dict : PlayerInfo → InfoDict
info_dict p =
    (codes "id", Scalar.number p.id)
    ∷ (codes "chips", Scalar.number p.chips)
    ∷ (codes "bet", Scalar.number p.bet)
    ∷ (codes "status", Scalar.text p.status)
    ∷ []

-- `GameState.to_dict`
unfoldable pub to_dict : GameState → StateDict
to_dict s =
    (codes "your_id", number s.your_id)
    ∷ (codes "phase", text s.phase)
    ∷ (codes "your_cards", texts s.your_cards)
    ∷ (codes "community", texts s.community)
    ∷ (codes "your_chips", number s.your_chips)
    ∷ (codes "your_bet_this_round", number s.your_bet_this_round)
    ∷ (codes "your_total_bet_this_hand", number s.your_total_bet_this_hand)
    ∷ (codes "pot", number s.pot)
    ∷ (codes "to_call", number s.to_call)
    ∷ (codes "dealer_button", number s.dealer_button)
    ∷ (codes "current_turn", number s.current_turn)
    ∷ (codes "players", infos (map info_dict s.players))
    ∷ (codes "actions", offers s.actions)
    ∷ (codes "history", lines s.history)
    ∷ []

-- `p[key]`. The source checks no types: an entry of another type than the class's annotations say is
-- kept there, and is `unmodelled` here.
abbrev number_in : Scalar → Result ℕ
number_in (Scalar.number n) = ok n
number_in (Scalar.text t) = raise unmodelled

abbrev text_in : Scalar → Result Text
text_in (Scalar.number n) = raise unmodelled
text_in (Scalar.text t) = ok t

unfoldable pub info_from : InfoDict → Result PlayerInfo
info_from p = do
  id ← or_raise (text_lookup (codes "id") p) key_error >>= number_in
  chips ← or_raise (text_lookup (codes "chips") p) key_error >>= number_in
  bet ← or_raise (text_lookup (codes "bet") p) key_error >>= number_in
  status ← or_raise (text_lookup (codes "status") p) key_error >>= text_in
  ok (record { id = id; chips = chips; bet = bet; status = status })

-- `data.get(key, default)`
abbrev get_number : Option Value → Result ℕ
get_number none = ok 0
get_number (some (number n)) = ok n
get_number (some _) = raise unmodelled

abbrev get_text : Option Value → Result Text
get_text none = ok []
get_text (some (text t)) = ok t
get_text (some _) = raise unmodelled

abbrev get_texts : Option Value → Result (List Text)
get_texts none = ok []
get_texts (some (texts t)) = ok t
get_texts (some _) = raise unmodelled

abbrev get_infos : Option Value → Result (List InfoDict)
get_infos none = ok []
get_infos (some (infos ds)) = ok ds
get_infos (some _) = raise unmodelled

abbrev get_offers : Option Value → Result (List Offer)
get_offers none = ok []
get_offers (some (offers os)) = ok os
get_offers (some _) = raise unmodelled

abbrev get_lines : Option Value → Result (List Entry)
get_lines none = ok []
get_lines (some (lines ls)) = ok ls
get_lines (some _) = raise unmodelled

-- `GameState.from_dict`
unfoldable pub from_dict : StateDict → Result GameState
unfolding info_from
from_dict entries = do
  dicts ← get_infos (text_lookup (codes "players") entries)
  players ← traverse info_from dicts
  your_id ← get_number (text_lookup (codes "your_id") entries)
  phase ← get_text (text_lookup (codes "phase") entries)
  your_cards ← get_texts (text_lookup (codes "your_cards") entries)
  community ← get_texts (text_lookup (codes "community") entries)
  your_chips ← get_number (text_lookup (codes "your_chips") entries)
  bet ← get_number (text_lookup (codes "your_bet_this_round") entries)
  total_bet ← get_number (text_lookup (codes "your_total_bet_this_hand") entries)
  pot ← get_number (text_lookup (codes "pot") entries)
  to_call ← get_number (text_lookup (codes "to_call") entries)
  dealer_button ← get_number (text_lookup (codes "dealer_button") entries)
  current_turn ← get_number (text_lookup (codes "current_turn") entries)
  actions ← get_offers (text_lookup (codes "actions") entries)
  history ← get_lines (text_lookup (codes "history") entries)
  ok (record {
    your_id = your_id;
    phase = phase;
    your_cards = your_cards;
    community = community;
    your_chips = your_chips;
    your_bet_this_round = bet;
    your_total_bet_this_hand = total_bet;
    pot = pot;
    to_call = to_call;
    dealer_button = dealer_button;
    current_turn = current_turn;
    players = players;
    actions = actions;
    history = history;
  })
