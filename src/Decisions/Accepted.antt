-- ===== src/Decisions/Accepted.antt =====
-- Decisions handed to process_player_action: poker/player_models.py and poker/game.py.
use adk_poker.Base.{
  ℕ, length-map, zero, suc, ◌≤◌, ◌<◌, ◌≡◌, refl, Bool, true, false, List, [], ◌∷◌, map, arith,
  length, All, some, Option-cases, inl, inr,
}
use adk_poker.Base.Int.{pos}
use adk_poker.Result.{Yields}
use adk_poker.Player.{Player}
use adk_poker.Game.State.{Game}
use adk_poker.Game.Action.{
  Action, raise_to, all_in, acting_player, perform, perform_all_in, process_player_action,
}
use adk_poker.Game.Offer.{
  Offer, offer_fold, offer_check, offer_call, offer_raise, offer_all_in, Accepted,
  get_available_actions, get_available_actions-Accepted,
}
use adk_poker.Decisions.Random.{Decision, option_for, options, choose, random_decision}

abbrev pub is_raise : Action → Bool
is_raise raise_to = true
is_raise _ = false

-- A decision that is accepted, or a raise that is at most the stack.
abbrev pub Played : ℕ → Game → ℕ → Decision → Type 0
Played id g chips d =
    (is_raise d.action ≡ false → (process_player_action id d.action (pos d.amount) g).1 ≡ true)
    × (is_raise d.action ≡ true → d.amount ≤ chips)

-- Whether all-in is accepted does not depend on the amount.
all_in_any :
    (id a b : ℕ) (g : Game)
    → (process_player_action id all_in (pos a) g).1 ≡ true
    → (process_player_action id all_in (pos b) g).1 ≡ true
unfolding process_player_action perform
all_in_any id a b g h = elim (Option-cases (acting_player id g)) [
  | inl e ↦ absurd (ground (arith, e, h))
  | inr (p, e) ↦ elim (Option-cases (perform_all_in g p)) [
    | inl f ↦ absurd (ground (arith, e, f, h))
    | inr (q, f) ↦ rw (e, process_player_action) (rw f refl)
  ]
]

option-Played :
    (factor chips id : ℕ) (g : Game) (o : Offer)
    → Accepted id g o
    → Played id g chips (option_for factor chips o).0
unfolding option_for
option-Played factor chips id g offer_fold h = ((λ _. h), λ e. cc)
option-Played factor chips id g offer_check h = ((λ _. h), λ e. cc)
option-Played factor chips id g (offer_call n) h = ((λ _. h), λ e. cc)
option-Played factor chips id g (offer_raise n) h = ((λ e. cc), λ _. omega arith)
option-Played factor chips id g (offer_all_in n) h = ((λ _. all_in_any id n chips g h), λ e. cc)

options-Played :
    (factor chips id : ℕ) (g : Game) (offers : List Offer)
    → All (Accepted id g) offers
    → All (λ c. Played id g chips c.0) (options factor chips offers)
options-Played factor chips id g [] h = tt
options-Played factor chips id g (o ∷ offers) h =
    (option-Played factor chips id g o h.0, options-Played factor chips id g offers h.1)

choose-Yields {κ} :
    (P : Decision → Type κ) (choices : List (Decision × ℕ)) (i : ℕ)
    → All (λ c. P c.0) choices
    → i < length choices
    → Yields P (choose choices i)
unfolding choose
choose-Yields P [] i h k = absurd (omega arith)
choose-Yields P (c ∷ choices) zero h k = (c.0, refl, h.0)
choose-Yields P (c ∷ choices) (suc i) h k = choose-Yields P choices i h.1 (omega arith)

random_decision-Played :
    (factor chips id : ℕ) (pick : List ℕ → ℕ) (g : Game) (offers : List Offer)
    → ((ws : List ℕ) → 0 < length ws → pick ws < length ws)
    → 0 < length offers
    → All (Accepted id g) offers
    → Yields (Played id g chips) (random_decision factor pick chips offers)
unfolding random_decision
random_decision-Played factor chips id pick g [] picks many h = absurd (omega arith)
random_decision-Played factor chips id pick g (o ∷ offers) picks many h =
    let choices = options factor chips (o ∷ offers) in
    let weights = map (λ (c : Decision × ℕ). c.1) choices in
    let size : length weights ≡ length choices = length-map (λ (c : Decision × ℕ). c.1) choices in
    choose-Yields (Played id g chips) choices (pick weights)
      (options-Played factor chips id g (o ∷ offers) h)
      (omega (arith, size, picks weights (omega (arith, size))))

-- When a player who may act decides at random among the available actions, a decision is made, if
-- the random index is one of the list's. If it is not a raise, process_player_action accepts it; a
-- raise is by no more than the stack.
pub random_decision-Accepted :
    (factor id : ℕ) (pick : List ℕ → ℕ) (g : Game) (p : Player)
    → ((ws : List ℕ) → 0 < length ws → pick ws < length ws)
    → acting_player id g ≡ some p
    → Yields
        (Played id g p.chips)
        (random_decision factor pick p.chips (get_available_actions id g))
random_decision-Accepted factor id pick g p picks e =
    let (all, many) = get_available_actions-Accepted id g p e in
    random_decision-Played factor p.chips id pick g (get_available_actions id g) picks many all
