-- ===== src/Game/SetupTests.antt =====
-- Tables set up by computation, and a hand at one.
use adk_poker.Base.{
  ℕ, ◌+◌, ◌*◌, ◌≤◌, ◌≡◌, refl, List, [], ◌∷◌, none, some, map, length, keep_if, arith, Text, codes,
}
use adk_poker.Base.Int.{pos}
use adk_poker.Result.{Result, ok, raise, value_error, ◌>>=◌}
use adk_poker.Game.State.{Game, ShowdownResult, in_hand, stacks}
use adk_poker.Game.Setup.{
  Seat, Config, setup_configurable_game, setup_configurable_game_with_models, setup_default_game,
}
use adk_poker.Game.Evening.{new_table-Conserves}
use adk_poker.Game.Action.{fold, process_player_action}
use adk_poker.Game.Hand.{start_new_hand}
use adk_poker.Game.Play.{Steps, done, next, act}
use adk_poker.Game.Showdown.{conduct_showdown}
use adk_poker.Game.Tests.{program, opened, keep_order, ok_or}

abbrev config : Text → Config
config t = record { type = some t; model = none; agent_id = none; user_id = some (codes "me") }

abbrev configs : List Config
configs = config (codes "human") ∷ config (codes "llm_api") ∷ config (codes "random") ∷ []

abbrev first_of : ℕ → ℕ
first_of n = 0

abbrev names_of : Result (Game × List Seat) → Result (List Text)
names_of r = r >>= λ (g, seats). ok (map (λ (s : Seat). s.name) seats)

names_run :
    names_of (setup_configurable_game_with_models first_of configs opened)
    ≡ ok (codes "You" ∷ codes "Agent1" ∷ codes "CPU2" ∷ [])
unfolding setup_configurable_game_with_models
names_run = refl

default_run :
    names_of (setup_default_game first_of (record opened { players = [] }))
    ≡ ok (codes "You" ∷ codes "CPU1" ∷ codes "CPU2" ∷ codes "CPU3" ∷ [])
unfolding setup_default_game
default_run = refl

-- The plain setup does not know the type that the other one does.
api_run :
    setup_configurable_game first_of (codes "human" ∷ codes "llm_api" ∷ []) opened
    ≡ raise value_error
unfolding setup_configurable_game
api_run = refl

abbrev no_seats : Game × List Seat
no_seats = (opened, [])

abbrev table_or : Result (Game × List Seat) → Game × List Seat
table_or (ok r) = r
table_or (raise e) = no_seats

abbrev table : Game × List Seat
table = table_or (setup_configurable_game_with_models first_of configs opened)

abbrev dealt : Game
dealt = ok_or opened (start_new_hand keep_order table.0)

abbrev after_fold : Game
after_fold = (process_player_action 1 fold (pos 0) dealt).0

table_made : setup_configurable_game_with_models first_of configs opened ≡ ok table
unfolding setup_configurable_game_with_models
table_made = refl

table_dealt : start_new_hand keep_order table.0 ≡ ok dealt
unfolding program setup_configurable_game_with_models
table_dealt = refl

still_in : 2 ≤ length (keep_if in_hand after_fold.players)
unfolding program setup_configurable_game_with_models
still_in = omega arith

abbrev one_fold : Steps dealt after_fold
one_fold = next done (act 1 fold (pos 0))

new_table-Conserves_example :
    (r : Game) × (s : ShowdownResult) × (conduct_showdown after_fold ≡ ok (r, s))
    × (stacks r.players + r.pot ≡ 3 * 2000)
new_table-Conserves_example =
    new_table-Conserves first_of configs opened table.0 dealt after_fold table.1 keep_order
      (omega arith) (omega arith) refl (omega arith) (λ cards. refl) table_made table_dealt one_fold
      still_in
