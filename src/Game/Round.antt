-- ===== src/Game/Round.antt =====
-- The betting round: `_advance_to_next_player`, `_check_betting_round_complete`,
-- `_start_new_betting_round` and what they call.
use adk_poker.Base.{
  ℕ, suc, zero, ◌+◌, ◌-◌, ◌%◌, Bool, true, false, ◌&&◌, not, List, [], ◌∷◌, map, ltb, leb, ◌==◌,
  if◌then◌else◌, length, Option, none, some, get_elem?, keep_if, every, contains,
}
use adk_poker.Player.{Player, is_active, is_all_in, reset_for_new_betting_round}
use adk_poker.History.{preflop, same_phase}
use adk_poker.Game.State.{Game, seats, can_act}

-- `self.players[i].status == PlayerStatus.ACTIVE`
abbrev pub active_at : List Player → ℕ → Bool
active_at ps i = elim (get_elem? ps i) [ none ↦ false | some p ↦ is_active p.status ]

-- The loops `for i in range(i, i + n): next_index = (start + i) % total; if test: return`.
unfoldable pub next_seat : (ℕ → Bool) → ℕ → ℕ → ℕ → ℕ → Option ℕ
next_seat test start total zero i = none
next_seat test start total (suc n) i =
    let rest = next_seat test start total n (suc i) in
    if test ((start + i) % total) then some ((start + i) % total) else rest

abbrev pub complete : Game → Game
complete g = record g { betting_round_complete = true }

-- `_advance_to_next_player`
unfoldable pub advance_to_next_player : Game → Game
unfolding next_seat
advance_to_next_player g =
    elim (next_seat (active_at g.players) g.current_player_index (length g.players)
      (length g.players) 1) [ none ↦ complete g | some i ↦ record g { current_player_index = i } ]

-- `xs[0] if xs else None`
abbrev pub first_or_none : List ℕ → Option ℕ
first_or_none [] = none
first_or_none (i ∷ _) = some i

-- The first seat from `start` on that is among the active ones, or the first active one.
unfoldable pub from_seat : ℕ → Game → Option ℕ
unfolding next_seat
from_seat start g =
    elim (next_seat (λ i. contains i (seats can_act g)) start (length g.players)
      (length g.players - 1) 1) [ none ↦ first_or_none (seats can_act g) | some i ↦ some i ]

-- The first index with `is_big_blind`, from `i` on.
unfoldable pub big_blind_seat : ℕ → List Player → Option ℕ
big_blind_seat i [] = none
big_blind_seat i (p ∷ ps) =
    let rest = big_blind_seat (suc i) ps in if p.is_big_blind then some i else rest

-- `_get_first_actor_for_phase`
unfoldable pub first_actor_for_phase : Game → Option ℕ
unfolding from_seat big_blind_seat
first_actor_for_phase g =
    if same_phase g.current_phase preflop
    then elim (big_blind_seat 0 g.players) [
      | none ↦ first_or_none (seats can_act g)
      | some bb ↦ from_seat bb g
    ]
    else from_seat g.dealer_button g

-- `_get_next_active_player_from`
unfoldable pub next_active_player_from : ℕ → Game → Option ℕ
unfolding next_seat
next_active_player_from start g =
    next_seat (λ i. contains i (seats can_act g)) start (length g.players) (length g.players - 1) 1

-- `self.current_player_index == seat`, where the seat may be `None`.
abbrev pub at_seat : ℕ → Option ℕ → Bool
at_seat i none = false
at_seat i (some j) = i == j

-- The end of `_check_betting_round_complete`, when all bets are equal: nobody has raised, the
-- last raiser is out, or the turn is back behind the last raiser.
unfoldable pub after_equal_bets : Game → Option ℕ → Game
unfolding first_actor_for_phase next_active_player_from
after_equal_bets g none =
    if at_seat g.current_player_index (first_actor_for_phase g) then complete g else g
after_equal_bets g (some raiser) =
    if not (contains raiser (seats can_act g))
    then complete g
    else if at_seat g.current_player_index (next_active_player_from raiser g)
    then complete g
    else g

-- One active player is left: the round goes on while that player has not matched the bet.
unfoldable pub single_active : Game → List Player → Game
single_active g [] = g
single_active g (p ∷ _) = if ltb p.current_bet g.current_bet then g else complete g

abbrev pub is_some : Option ℕ → Bool
is_some none = false
is_some (some _) = true

-- `p.current_bet == self.current_bet` for every active player.
abbrev pub all_same_bet : Game → Bool
all_same_bet g = every (λ p. p.current_bet == g.current_bet) (keep_if can_act g.players)

-- `_check_betting_round_complete`
unfoldable pub check_betting_round_complete : Game → Game
unfolding after_equal_bets single_active
check_betting_round_complete g =
    let acting = keep_if can_act g.players in
    let all_ins = keep_if (λ p. is_all_in p.status) g.players in
    if leb (length acting + length all_ins) 1
    then complete g
    else if length acting == 0
    then complete g
    else if length acting == 1
    then single_active g acting
    else if not (all_same_bet g)
    then g
    else if is_some g.last_raiser_index && g.has_bet_or_raise_this_round
    then complete g
    else after_equal_bets g g.last_raiser_index

-- `_start_new_betting_round`
unfoldable pub start_new_betting_round : Game → Game
unfolding first_actor_for_phase
start_new_betting_round g =
    let g' = record g {
      players = map reset_for_new_betting_round g.players;
      current_bet = 0;
      betting_round_complete = false;
      last_raiser_index = none;
    } in
    elim (seats can_act g') [
      | [] ↦ complete g'
      | first ∷ _ ↦ elim (first_actor_for_phase g') [
        | none ↦ record g' { current_player_index = first }
        | some i ↦ record g' { current_player_index = i }
      ]
    ]
