-- ===== src/Decisions/Tests.antt =====
-- Decisions of automatic players by computation: poker/player_models.py.
use adk_poker.Base.{ℕ, ◌≡◌, refl, true, List, [], ◌∷◌, some, none, Option, Text, codes, false}
use adk_poker.Base.Int.{ℤ, pos, negsuc}
use adk_poker.Result.{ok, raise, type_error, Yields}
use adk_poker.Game.Action.{raise_to, process_player_action}
use adk_poker.Game.Offer.{offer_fold, offer_check, offer_call, offer_raise, get_available_actions}
use adk_poker.Decisions.Random.{decision, random_decision}
use adk_poker.Decisions.Answer.{
  Answer, Json, text, integer, float, fraction, null, parsed, parse_answer,
}
use adk_poker.Decisions.Accepted.{Played, random_decision-Accepted}
use adk_poker.Decisions.Bounded.{Fits, parse_answer-Bounded}
use adk_poker.Player
use adk_poker.Game.State.{Game}
use adk_poker.Game.Tests.{program, opened, seated}

abbrev answer : Text → Json → Answer
answer action amount = record { action = some (text action); amount = some amount }

-- No text is read as a number.
abbrev no_int : Text → Option ℤ
no_int t = none

low_raise :
    parse_answer no_int 500
      (offer_fold ∷ offer_call 20 ∷ offer_raise 40 ∷ [])
      (some (answer (codes "Raise") (integer (pos 5))))
    ≡ ok (parsed (codes "raise") (pos 40))
unfolding parse_answer
low_raise = refl

-- Without an offer of a raise an amount is passed on as it is.
free_raise :
    parse_answer no_int 500
      (offer_fold ∷ offer_call 20 ∷ [])
      (some (answer (codes "raise") (integer (negsuc 4))))
    ≡ ok (parsed (codes "raise") (negsuc 4))
unfolding parse_answer
free_raise = refl

-- No amount at all, and one that is no number.
null_raise :
    parse_answer no_int 500 (offer_raise 40 ∷ []) (some (answer (codes "raise") null))
    ≡ raise type_error
unfolding parse_answer
null_raise = refl

half_raise :
    parse_answer no_int 500
      (offer_raise 40 ∷ [])
      (some (answer (codes "raise") (float (fraction 91 1))))
    ≡ ok (parsed (codes "raise") (pos 45))
unfolding parse_answer
half_raise = refl

abbrev first_index : List ℕ → ℕ
first_index ws = 0

random_decision-Accepted_example :
    Yields
      (Played 0 opened 2000)
      (random_decision 2 first_index 2000 (get_available_actions 0 opened))
unfolding program
random_decision-Accepted_example =
    random_decision-Accepted 2 0 first_index opened
      (record {
        id = 0;
        chips = 2000;
        hole_cards = [];
        current_bet = 0;
        total_bet_this_hand = 0;
        status = Player.active;
        is_dealer = true;
        is_small_blind = false;
        is_big_blind = false;
      })
      (λ ws h. h) refl

-- The same table with less chips for the player to act.
abbrev poor : Game
poor = record opened {
  players = record (seated 0 100 0) { is_dealer = true } ∷ seated 1 1990 10 ∷ seated 2 1980 20 ∷ [];
}

-- A raise of twice the offered total costs more than the stack, and is refused.
refused_raise :
    (random_decision 2 first_index 100 (offer_raise 60 ∷ []) ≡ ok (decision raise_to 100))
    × ((process_player_action 0 raise_to (pos 100) poor).1 ≡ false)
unfolding program random_decision
refused_raise = (refl, refl)

parse_answer-Bounded_example : Fits 500 (offer_check ∷ offer_raise 40 ∷ []) ⊥ (
    parse_answer no_int 500
      (offer_check ∷ offer_raise 40 ∷ [])
      (some (answer (codes "raise") (integer (pos 5)))))
parse_answer-Bounded_example =
    parse_answer-Bounded no_int 500 (offer_check ∷ offer_raise 40 ∷ [])
      (some (answer (codes "raise") (integer (pos 5))))
