-- ===== src/Player.antt =====
-- The player's own state and methods: poker/player_models.py, PlayerStatus and class Player.
-- Chips and bets are natural numbers (the constructor is only given non-negative stacks, and
-- `bet` never takes more than there is); the amounts that a caller passes are signed integers.
use adk_poker.Base.{
  ℕ, ◌+◌, ◌-◌, Bool, true, false, ◌&&◌, List, [], ◌∷◌, ◌++◌, ltb, leb, ◌==◌, if◌then◌else◌, length,
  min,
}
use adk_poker.Base.Int.{ℤ, pos, pos_part, leb_ℤ}
use adk_poker.Result.{Result, ok, raise, value_error}
use adk_poker.Cards.{Card}

pub data Status : Type 0 where
  active folded all_in busted : Status

abbrev pub is_active : Status → Bool
is_active active = true
is_active _ = false

abbrev pub is_all_in : Status → Bool
is_all_in all_in = true
is_all_in _ = false

abbrev pub is_busted : Status → Bool
is_busted busted = true
is_busted _ = false

abbrev pub is_folded : Status → Bool
is_folded folded = true
is_folded _ = false

pub record Player : Type 0 where
  pub id : ℕ
  pub chips : ℕ
  pub hole_cards : List Card
  pub current_bet : ℕ
  pub total_bet_this_hand : ℕ
  pub status : Status
  pub is_dealer : Bool
  pub is_small_blind : Bool
  pub is_big_blind : Bool

-- `Player.__init__`
unfoldable pub new_player : ℕ → ℕ → Player
new_player id chips = record {
  id = id;
  chips = chips;
  hole_cards = [];
  current_bet = 0;
  total_bet_this_hand = 0;
  status = active;
  is_dealer = false;
  is_small_blind = false;
  is_big_blind = false;
}

unfoldable pub reset_for_new_hand : Player → Player
reset_for_new_hand p = record p {
  hole_cards = [];
  current_bet = 0;
  total_bet_this_hand = 0;
  status = if ltb 0 p.chips then active else busted;
  is_dealer = false;
  is_small_blind = false;
  is_big_blind = false;
}

unfoldable pub reset_for_new_betting_round : Player → Player
reset_for_new_betting_round p = record p { current_bet = 0 }

unfoldable pub add_hole_card : Card → Player → Result Player
add_hole_card card p =
    if leb 2 (length p.hole_cards)
    then raise value_error
    else ok (record p { hole_cards = p.hole_cards ++ card ∷ [] })

-- `actual_bet` of `Player.bet`
abbrev actual_bet : ℤ → Player → ℕ
actual_bet amount p = min (pos_part amount) p.chips

-- `Player.bet`: the player afterwards, and the amount that was bet.
unfoldable pub bet : ℤ → Player → Player × ℕ
bet amount p = if leb_ℤ amount (pos 0) then (p, 0) else (
  record p {
    chips = p.chips - actual_bet amount p;
    current_bet = p.current_bet + actual_bet amount p;
    total_bet_this_hand = p.total_bet_this_hand + actual_bet amount p;
    status = if p.chips - actual_bet amount p == 0 then all_in else p.status;
  },
  actual_bet amount p,
)

unfoldable pub fold : Player → Player
fold p = record p { status = folded }

pub can_bet : ℤ → Player → Bool
can_bet amount p = leb_ℤ amount (pos p.chips) && is_active p.status
