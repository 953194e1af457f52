-- ===== src/Game/Setup.antt =====
-- Who sits at the table: `setup_default_game`, `setup_cpu_only_game`, `setup_configurable_game` and
-- `setup_configurable_game_with_models` of poker/game.py. A seat is what the constructor of the
-- player's class is given; the players themselves are as in Player. `random.randint(0, n)` is the
-- parameter `draw`.
use adk_poker.Base.{
  ℕ, suc, ◌+◌, ◌-◌, ◌||◌, List, [], ◌∷◌, ◌++◌, ltb, ◌==◌, if◌then◌else◌, length, Option, none, some,
  Text, codes, same_text, is_empty,
}
use adk_poker.Result.{Result, ok, raise, value_error, ◌>>=◌}
use adk_poker.Player.{new_player}
use adk_poker.Game.State.{Game, add_player}

-- The classes of players, with the arguments that only they have.
pub data Kind : Type 0 where
  human random : Kind
  llm : Option Text → Kind
  llm_api : Text → Text → Kind

pub record Seat : Type 0 where
  pub name : Text
  pub kind : Kind

-- `f"{prefix}{i}"`; there are ten players at most.
abbrev pub numbered : Text → ℕ → Text
numbered prefix i = prefix ++ (b'0' + i) ∷ []

abbrev pub human_seat : ℕ → Seat
human_seat i = record {
  name = if i == 0 then codes "You" else numbered (codes "Player") i;
  kind = human;
}

abbrev pub cpu_seat : ℕ → Seat
cpu_seat i = record { name = numbered (codes "CPU") i; kind = random }

abbrev pub ai_seat : ℕ → Option Text → Seat
ai_seat i model = record { name = numbered (codes "AI") i; kind = llm model }

-- The branches on `player_type` of `setup_configurable_game`.
unfoldable pub seat_of_type : ℕ → Text → Result Seat
seat_of_type i player_type =
    if same_text player_type (codes "human")
    then ok (human_seat i)
    else if same_text player_type (codes "random")
    then ok (cpu_seat i)
    else if same_text player_type (codes "llm")
    then ok (ai_seat i none)
    else raise value_error

-- A configuration; `none` is a missing key.
pub record Config : Type 0 where
  pub type : Option Text
  pub model : Option Text
  pub agent_id : Option Text
  pub user_id : Option Text

abbrev pub get_or : Option Text → Text → Text
get_or none default = default
get_or (some t) default = t

-- `if model:`
abbrev given : Option Text → Option Text
given none = none
given (some model) = if is_empty model then none else some model

-- The branches on `player_type` of `setup_configurable_game_with_models`.
unfoldable pub seat_of_config : ℕ → Config → Result Seat
seat_of_config i config =
    let player_type = get_or config.type [] in
    if same_text player_type (codes "human")
    then ok (human_seat i)
    else if same_text player_type (codes "random")
    then ok (cpu_seat i)
    else if same_text player_type (codes "llm")
    then ok (ai_seat i (given config.model))
    else if same_text player_type (codes "llm_api")
    then ok (record {
      name = numbered (codes "Agent") i;
      kind =
          llm_api (get_or config.agent_id (codes "team1_agent"))
            (get_or config.user_id (numbered (codes "player_") i));
    })
    else raise value_error

-- The loop `for i, … in enumerate(…)`, from `i`.
module _ {A : Type 0} (make : ℕ → A → Result Seat) where
  unfoldable pub add_seats : ℕ → List A → Game → Result (Game × List Seat)
  unfolding add_player new_player
  add_seats i [] g = ok (g, [])
  add_seats i (x ∷ xs) g = do
    seat ← make i x
    h ← add_player (new_player i g.initial_chips) g
    (k, seats) ← add_seats (suc i) xs h
    ok (k, seat ∷ seats)

  -- `2 <= len(...) <= 10`, an empty table, the loop, and the dealer button.
  unfoldable pub setup : (ℕ → ℕ) → List A → Game → Result (Game × List Seat)
  unfolding add_seats
  setup draw xs g =
      if ltb (length xs) 2 || ltb 10 (length xs)
      then raise value_error
      else (add_seats 0 xs (record g { players = [] }) >>= λ (h, seats).
          ok (record h { dealer_button = draw (length h.players - 1) }, seats))

-- `setup_configurable_game`
unfoldable pub setup_configurable_game : (ℕ → ℕ) → List Text → Game → Result (Game × List Seat)
unfolding setup seat_of_type
setup_configurable_game = setup seat_of_type

-- `setup_configurable_game_with_models`
unfoldable pub setup_configurable_game_with_models :
    (ℕ → ℕ) → List Config → Game → Result (Game × List Seat)
unfolding setup seat_of_config
setup_configurable_game_with_models = setup seat_of_config

-- The four players of a fixed table, added to those who are there.
unfoldable pub setup_four : (ℕ → Seat) → (ℕ → ℕ) → Game → Result (Game × List Seat)
unfolding add_seats
setup_four seat draw g = do
  (h, seats) ← add_seats (λ i. λ (j : ℕ). ok (seat i)) 0 (0 ∷ 1 ∷ 2 ∷ 3 ∷ []) g
  ok (record h { dealer_button = draw 3 }, seats)

-- `setup_default_game`
unfoldable pub setup_default_game : (ℕ → ℕ) → Game → Result (Game × List Seat)
unfolding setup_four
setup_default_game = setup_four (λ i. if i == 0 then human_seat 0 else cpu_seat i)

-- `setup_cpu_only_game`
unfoldable pub setup_cpu_only_game : (ℕ → ℕ) → Game → Result (Game × List Seat)
unfolding setup_four
setup_cpu_only_game = setup_four cpu_seat
