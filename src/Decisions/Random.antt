-- ===== src/Decisions/Random.antt =====
-- `RandomPlayer.make_decision` of poker/player_models.py. An action of the state is an offer, so the
-- number in its text is at hand. `random.randint(1, 3)` is the parameter `factor`, and
-- `random.choices` the parameter `pick`, which gives an index for a list of weights.
use adk_poker.Base.{ℕ, ◌*◌, min, List, [], ◌∷◌, map, get_elem?}
use adk_poker.Result.{Result, ok, index_error, or_raise, ◌>>=◌}
use adk_poker.Game.Action.{Action, fold, check, call, raise_to, all_in}
use adk_poker.Game.Offer.{Offer, offer_fold, offer_check, offer_call, offer_raise, offer_all_in}

-- `{"action": …, "amount": …}`
pub record Decision : Type 0 where
  pub action : Action
  pub amount : ℕ

abbrev pub decision : Action → ℕ → Decision
decision action amount = record { action = action; amount = amount }

-- The branches of the loop over the available actions: the option, and its weight.
unfoldable pub option_for : ℕ → ℕ → Offer → Decision × ℕ
option_for factor chips offer_fold = (decision fold 0, 30)
option_for factor chips offer_check = (decision check 0, 50)
option_for factor chips (offer_call amount) = (decision call amount, 50)
option_for factor chips (offer_raise amount) = (decision raise_to (min (amount * factor) chips), 15)
option_for factor chips (offer_all_in _) = (decision all_in chips, 5)

abbrev pub options : ℕ → ℕ → List Offer → List (Decision × ℕ)
options factor chips = map (option_for factor chips)

-- The option at an index.
unfoldable pub choose : List (Decision × ℕ) → ℕ → Result Decision
choose choices i = do (chosen, _) ← or_raise (get_elem? choices i) index_error; ok chosen

-- `RandomPlayer.make_decision`
unfoldable pub random_decision : ℕ → (List ℕ → ℕ) → ℕ → List Offer → Result Decision
unfolding option_for choose
random_decision factor pick chips [] = ok (decision fold 0)
random_decision factor pick chips (o ∷ offers) =
    let choices = options factor chips (o ∷ offers) in
    choose choices (pick (map (λ (c : Decision × ℕ). c.1) choices))
