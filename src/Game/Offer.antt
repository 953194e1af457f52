-- ===== src/Game/Offer.antt =====
-- `PokerGame._get_available_actions`: the actions offered to a player. An offer is its format string
-- with the number put into it.
use adk_poker.Base.{
  ℕ, ◌+◌, ◌-◌, ◌<◌, length, ◌≡◌, refl, Bool, true, false, ◌&&◌, ◌||◌, not, List, [], ◌∷◌, ◌++◌, ltb,
  leb, ◌==◌, if◌then◌else◌, none, some, All, All-append, arith, Option-cases, inl, inr,
}
use adk_poker.Base.Int.{ℤ, +ℤ_parts, -ℤ_parts, pos, ltb_ℤ, ◌-ℤ◌}
use adk_poker.Player.{Player, is_active}
use adk_poker.History.{preflop, same_phase}
use adk_poker.Game.State.{Game, Entry, find_player}
use adk_poker.Game.Round.{big_blind_seat, at_seat}
use adk_poker.Game.Action.{
  Action, fold, check, call, raise_to, all_in, perform, perform_call, perform_raise, perform_all_in,
  raise_total, acting_player, process_player_action,
}
use adk_poker.Game.Turn.{acting_player-some}

pub data Offer : Type 0 where
  offer_fold offer_check : Offer
  offer_call offer_raise offer_all_in : ℕ → Offer

-- `max(0, self.current_bet - player.current_bet)`
abbrev pub to_call : Game → Player → ℕ
to_call g p = g.current_bet - p.current_bet

-- Before the flop the big blind may raise once after everybody has called. The player's id is
-- compared with a seat.
unfoldable pub is_big_blind_option : ℕ → Game → Player → Bool
is_big_blind_option id g p =
    if same_phase g.current_phase preflop
      && not g.has_bet_or_raise_this_round
      && to_call g p == 0
      && g.current_bet == g.big_blind
    then at_seat id (big_blind_seat 0 g.players)
    else false

-- `can_open_bet or can_raise or is_big_blind_option`
abbrev pub may_raise : ℕ → Game → Player → Bool
may_raise id g p = g.current_bet == 0 || ltb 0 (to_call g p) || is_big_blind_option id g p

abbrev pub min_raise_total : Game → ℕ
min_raise_total g = if g.current_bet == 0 then g.big_blind else g.current_bet + g.big_blind

-- `if test: actions.append(offer)`
abbrev pub offer_if : Bool → Offer → List Offer
offer_if test offer = if test then offer ∷ [] else []

abbrev pub all_in_test : ℕ → Game → Player → Bool
all_in_test id g p =
    ltb 0 p.chips && (may_raise id g p || (ltb 0 (to_call g p) && ltb p.chips (to_call g p)))

unfoldable pub offers_to : ℕ → Game → Player → List Offer
offers_to id g p =
    offer_if true offer_fold
    ++ offer_if (to_call g p == 0) offer_check
    ++ offer_if (ltb 0 (to_call g p) && leb (to_call g p) p.chips) (offer_call (to_call g p))
    ++ offer_if (may_raise id g p && leb (min_raise_total g) p.chips && ltb (to_call g p) p.chips)
        (offer_raise (min_raise_total g))
    ++ offer_if (all_in_test id g p) (offer_all_in p.chips)

-- `_get_available_actions`
unfoldable pub get_available_actions : ℕ → Game → List Offer
unfolding offers_to
get_available_actions id g = elim (find_player id g.players) [
  | none ↦ []
  | some p ↦ if is_active p.status then offers_to id g p else []
]

abbrev pub action_of : Offer → Action
action_of offer_fold = fold
action_of offer_check = check
action_of (offer_call _) = call
action_of (offer_raise _) = raise_to
action_of (offer_all_in _) = all_in

-- What to pass for an offer. A raise is offered with the bet that it reaches, and is called with
-- what it adds to the current bet.
abbrev pub amount_of : Game → Offer → ℤ
amount_of g (offer_raise total) = pos total -ℤ pos g.current_bet
amount_of g (offer_call n) = pos n
amount_of g (offer_all_in n) = pos n
amount_of g _ = pos 0

-- The call for the offer is accepted.
abbrev pub Accepted : ℕ → Game → Offer → Type 0
Accepted id g o = (process_player_action id (action_of o) (amount_of g o) g).1 ≡ true

abbrev Performs : Game → Player → Offer → Type 0
Performs g p o = (d : Game × Entry) × (perform g p (action_of o) (amount_of g o) ≡ some d)

offer_if-All :
    (P : Offer → Type 0) (test : Bool) (o : Offer) → (test ≡ true → P o) → All P (offer_if test o)
offer_if-All P true o h = (h refl, tt)
offer_if-All P false o h = tt

-- A branch that goes through is reported as accepted.
pub Performs-Accepted :
    (id : ℕ) (g : Game) (p : Player) (o : Offer)
    → acting_player id g ≡ some p
    → Performs g p o
    → Accepted id g o
unfolding process_player_action
Performs-Accepted id g p o e (d, f) = rw (e, process_player_action) (rw f refl)

module _ (id : ℕ) (g : Game) (p : Player) where
  check-Performs : to_call g p == 0 ≡ true → Performs g p offer_check
  unfolding perform
  check-Performs h = elim (Option-cases (perform g p check (pos 0))) [
    | inl e ↦ ground (arith, e, h)
    | inr d ↦ d
  ]

  call-Performs :
      ltb 0 (to_call g p) && leb (to_call g p) p.chips ≡ true
      → Performs g p (offer_call (to_call g p))
  unfolding perform perform_call
  call-Performs h = elim (Option-cases (perform_call g p)) [
    | inl e ↦ ground (arith, e, h)
    | inr d ↦ d
  ]

  raise_fits :
      leb (min_raise_total g) p.chips ≡ true
      → ltb_ℤ (pos p.chips) (raise_total g p (pos (min_raise_total g) -ℤ pos g.current_bet)) ≡ false
  raise_fits h =
      let m = -ℤ_parts (pos (min_raise_total g)) (pos g.current_bet) in
      let c = -ℤ_parts (pos g.current_bet) (pos p.current_bet) in
      let s =
        +ℤ_parts (pos g.current_bet -ℤ pos p.current_bet)
          (pos (min_raise_total g) -ℤ pos g.current_bet) in
      ground (arith, m, c, s, h)

  raise-Performs :
      may_raise id g p && leb (min_raise_total g) p.chips && ltb (to_call g p) p.chips ≡ true
      → Performs g p (offer_raise (min_raise_total g))
  unfolding perform perform_raise
  raise-Performs h =
      let fits : leb (min_raise_total g) p.chips ≡ true = ground arith in
      let shut = raise_fits fits in
      elim (Option-cases (perform_raise g p (pos (min_raise_total g) -ℤ pos g.current_bet))) [
        | inl e ↦ ground (arith, e, shut)
        | inr d ↦ d
      ]

  all_in-Performs : all_in_test id g p ≡ true → Performs g p (offer_all_in p.chips)
  unfolding perform perform_all_in
  all_in-Performs h = elim (Option-cases (perform_all_in g p)) [
    | inl e ↦ ground (arith, e, h)
    | inr d ↦ d
  ]

  offers_to-Performs : All (Performs g p) (offers_to id g p)
  unfolding offers_to perform
  offers_to-Performs =
      let add = All-append (Performs g p) in
      let only = offer_if-All (Performs g p) in
      let folding = offer_if true offer_fold in
      let checking = folding ++ offer_if (to_call g p == 0) offer_check in
      let calling =
        checking
        ++ offer_if (ltb 0 (to_call g p) && leb (to_call g p) p.chips) (offer_call (to_call g p)) in
      let raising =
        calling
        ++ offer_if
            (may_raise id g p && leb (min_raise_total g) p.chips && ltb (to_call g p) p.chips)
            (offer_raise (min_raise_total g)) in
      let a =
        add folding _ (only true offer_fold (λ _. (_, refl))) (only _ offer_check check-Performs) in
      let b = add checking _ a (only _ (offer_call (to_call g p)) call-Performs) in
      let c = add calling _ b (only _ (offer_raise (min_raise_total g)) raise-Performs) in
      add raising _ c (only _ (offer_all_in p.chips) all_in-Performs)

All-offers {κ μ} :
    (P : Offer → Type κ) (Q : Offer → Type μ) (os : List Offer)
    → ((o : Offer) → P o → Q o)
    → All P os
    → All Q os
All-offers P Q [] f h = tt
All-offers P Q (o ∷ os) f h = (f o h.0, All-offers P Q os f h.1)

offers_to_some : (id : ℕ) (g : Game) (p : Player) → 0 < length (offers_to id g p)
unfolding offers_to
offers_to_some id g p = omega arith

-- When a player who may act asks for the available actions, there is one at least, and each of
-- them is accepted by process_player_action with the amount that the offer stands for: for a
-- raise, what the offered total adds to the current bet.
pub get_available_actions-Accepted :
    (id : ℕ) (g : Game) (p : Player)
    → acting_player id g ≡ some p
    → All (Accepted id g) (get_available_actions id g) × (0 < length (get_available_actions id g))
unfolding get_available_actions
get_available_actions-Accepted id g p e =
    let (turn, same, found, active) = acting_player-some id g p e in
    let playing : is_active p.status ≡ true = rw active refl in
    rw (found, get_available_actions, playing)
      (
        All-offers (Performs g p) (Accepted id g) (offers_to id g p)
            (λ o. Performs-Accepted id g p o e) (offers_to-Performs id g p),
        offers_to_some id g p,
      )
