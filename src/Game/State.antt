-- ===== src/Game/State.antt =====
-- The state of `PokerGame`, its constructor, its table of players and its small writes.
use adk_poker.Base.{
  ℕ, suc, Bool, true, false, List, [], ◌∷◌, ◌++◌, leb, ◌==◌, if◌then◌else◌, length, Option, none,
  some, sum_of,
}
use adk_poker.Base.Int.{ℤ}
use adk_poker.Result.{Result, ok, raise, value_error, ◌>>=◌}
use adk_poker.Cards.{Card, reset_deck}
use adk_poker.Ranking.{HandResult}
use adk_poker.Player.{Player, is_active, is_all_in, is_busted}
use adk_poker.History
use adk_poker.History.{HistoryDb, Phase, preflop, ActionType, new_db}

-- The lines of `action_history`: a constructor for each format string, with what is put into it.
-- A card list in a line is the cards themselves.
pub data Entry : Type 0 where
  posted_small_blind posted_big_blind : ℕ → ℕ → Entry
  did_fold did_check : ℕ → Entry
  did_call did_raise did_all_in : ℕ → ℕ → Entry
  flop_dealt : List Card → Entry
  turn_dealt river_dealt : Card → Entry
  no_remaining_players : Entry
  won_by_default : ℕ → ℕ → Entry
  shown_hand : ℕ → Option HandResult → List Card → Entry
  pot_layer : ℕ → ℕ → List ℕ → Option HandResult → Entry

-- A row of `results`; `none` for the hand is "Won by default".
pub record Award : Type 0 where
  pub player_id : ℕ
  pub hand : Option HandResult
  pub winnings : ℕ

-- The dictionary that `conduct_showdown` returns; `all_hands` is absent unless hands were shown.
pub record ShowdownResult : Type 0 where
  pub winners : List ℕ
  pub results : List Award
  pub all_hands : List (ℕ × Option HandResult × List Card)

pub record Game : Type 0 where
  pub small_blind : ℕ
  pub big_blind : ℕ
  pub initial_chips : ℕ
  pub players : List Player
  pub dealer_button : ℕ
  pub current_player_index : ℕ
  pub deck : List Card
  pub community_cards : List Card
  pub current_phase : Phase
  pub pot : ℕ
  pub current_bet : ℕ
  pub hand_number : ℕ
  pub betting_round_complete : Bool
  pub last_raiser_index : Option ℕ
  pub has_bet_or_raise_this_round : Bool
  pub action_history : List Entry
  pub last_showdown_results : Option ShowdownResult
  pub db : HistoryDb
  pub current_hand_id : Option ℕ

-- `PokerGame.__init__`; `Deck()` shuffles a full deck.
unfoldable pub new_game : (List Card → List Card) → ℕ → ℕ → ℕ → Result Game
new_game shuffle sb bb chips = do
  cards ← reset_deck shuffle
  ok (record {
    small_blind = sb;
    big_blind = bb;
    initial_chips = chips;
    players = [];
    dealer_button = 0;
    current_player_index = 0;
    deck = cards;
    community_cards = [];
    current_phase = preflop;
    pot = 0;
    current_bet = 0;
    hand_number = 0;
    betting_round_complete = false;
    last_raiser_index = none;
    has_bet_or_raise_this_round = false;
    action_history = [];
    last_showdown_results = none;
    db = new_db;
    current_hand_id = none;
  })

-- `PokerGame.add_player`
unfoldable pub add_player : Player → Game → Result Game
add_player p g =
    if leb 10 (length g.players)
    then raise value_error
    else ok (record g { players = g.players ++ p ∷ [] })

-- `PokerGame.get_player`: the first player with the id.
unfoldable pub find_player : ℕ → List Player → Option Player
find_player id [] = none
find_player id (p ∷ ps) = let rest = find_player id ps in if p.id == id then some p else rest

-- A write to the object that `get_player` returned.
unfoldable pub put_player : ℕ → Player → List Player → List Player
put_player id q [] = []
put_player id q (p ∷ ps) = let rest = put_player id q ps in if p.id == id then q ∷ ps else p ∷ rest

-- The indices `[i for i, p in enumerate(self.players) if test(p)]`, from `i`.
unfoldable pub seats_from : (Player → Bool) → ℕ → List Player → List ℕ
seats_from test i [] = []
seats_from test i (p ∷ ps) =
    let rest = seats_from test (suc i) ps in if test p then i ∷ rest else rest

abbrev pub seats : (Player → Bool) → Game → List ℕ
seats test g = seats_from test 0 g.players

abbrev pub can_act : Player → Bool
can_act p = is_active p.status

abbrev pub not_busted : Player → Bool
not_busted p = if is_busted p.status then false else true

-- `p.status in [ACTIVE, ALL_IN]`
abbrev pub in_hand : Player → Bool
in_hand p = if is_active p.status then true else is_all_in p.status

abbrev pub log_entry : Entry → Game → Game
log_entry e g = record g { action_history = g.action_history ++ e ∷ [] }

-- `if self.current_hand_id is not None: self.db.record_action(…)`
unfoldable pub log_action : Phase → ℕ → ActionType → ℤ → Game → Game
log_action phase id action amount g = elim g.current_hand_id [
  | none ↦ g
  | some hand ↦ record g {
    db =
        History.record_action
          (record {
            hand_id = hand;
            phase = phase;
            player_id = id;
            action_type = action;
            amount = amount;
            pot_after = g.pot;
          })
          g.db;
  }
]

-- All the chips of the players.
abbrev pub stacks : List Player → ℕ
stacks = sum_of (λ p. p.chips)

-- All that the players have put into this hand.
abbrev pub stakes : List Player → ℕ
stakes = sum_of (λ p. p.total_bet_this_hand)
