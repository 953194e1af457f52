-- ===== src/Game/Evening.antt =====
-- New tables, and the hands played at them: `setup_configurable_game_with_models` of poker/game.py,
-- and what follows it.
use adk_poker.Base.{
  ℕ, ◌+◌, ◌-◌, ◌*◌, ◌≤◌, ◌<◌, ◌≡◌, ap, sym, ◌∙◌, true, every, List, arith, length, keep_if,
}
use mathlib.Core.Path.{subst}
use adk_poker.Result.{ok, Yields}
use adk_poker.Cards.{Card}
use adk_poker.Game.State.{Game, ShowdownResult, in_hand, stacks}
use adk_poker.Game.Setup.{Seat, Config, seat_of_config, setup_configurable_game_with_models}
use adk_poker.Game.Hand.{start_new_hand}
use adk_poker.Game.Hand.Start.{has_chips}
use adk_poker.Game.Showdown.{conduct_showdown}
use adk_poker.Game.Showdown.Layers.{DistinctIds}
use adk_poker.Game.Play.{Steps, play-Conserves}
use adk_poker.Game.Tables.{
  new_players, length-new_players, new_players-DistinctIds, all_have_chips, stacks-new_players,
  setup-Joined,
}
use adk_poker.Game.Configs.{is_known, every-Known}

-- What is staked and held at a new table.
abbrev pub NewTable : Game → List Config → Game × List Seat → Type 0
NewTable g configs r =
    (r.0.players ≡ new_players g.initial_chips 0 (length configs))
    × (length r.1 ≡ length configs)
    × DistinctIds r.0.players
    × (r.0.dealer_button < length r.0.players)

-- A new table, and the hands at it.
pub setup_configurable_game_with_models-NewTable :
    (draw : ℕ → ℕ) (configs : List Config) (g : Game)
    → ((n : ℕ) → draw n ≤ n)
    → 2 ≤ length configs
    → length configs ≤ 10
    → every is_known configs ≡ true
    → Yields (NewTable g configs) (setup_configurable_game_with_models draw configs g)
unfolding setup_configurable_game_with_models
setup_configurable_game_with_models-NewTable draw configs g bound many few known =
    let (r, run, (players, count, button)) =
      setup-Joined seat_of_config draw configs g many few (every-Known 0 configs known) in
    let size : length r.0.players ≡ length configs =
      ap length players ∙ length-new_players g.initial_chips 0 (length configs) in
    (
      r,
      run,
      (
        players,
        count,
        subst DistinctIds (sym players)
            (new_players-DistinctIds g.initial_chips 0 (length configs)),
        omega (arith, size, button, bound (length configs - 1)),
      ),
    )

-- At a table that setup_configurable_game_with_models has made from two to ten configurations of
-- known types, with chips for everybody, a hand goes as follows, whatever calls come between its
-- start and its showdown: if two players or more are left, the showdown does not raise, and the
-- chips of the players and the pot are together the initial chips times the number of players.
-- (The shuffle keeps the number of cards.)
pub new_table-Conserves :
    (draw : ℕ → ℕ) (configs : List Config) (g t h k : Game) (seats : List Seat)
    (shuffle : List Card → List Card)
    → 2 ≤ length configs
    → length configs ≤ 10
    → every is_known configs ≡ true
    → 0 < g.initial_chips
    → ((cards : List Card) → length (shuffle cards) ≡ length cards)
    → setup_configurable_game_with_models draw configs g ≡ ok (t, seats)
    → start_new_hand shuffle t ≡ ok h
    → Steps h k
    → 2 ≤ length (keep_if in_hand k.players)
    → (r : Game) × (s : ShowdownResult) × (conduct_showdown k ≡ ok (r, s))
      × (stacks r.players + r.pot ≡ length configs * g.initial_chips)
unfolding setup_configurable_game_with_models
new_table-Conserves draw configs g t h k seats shuffle many few known chips keeps made started steps
      left =
    let (r, run, (players, _, _)) =
      setup-Joined seat_of_config draw configs g many few (every-Known 0 configs known) in
    let same : r ≡ (t, seats) = cc in
    conserves (length configs) g.initial_chips
      (subst (λ q. q.0.players ≡ new_players g.initial_chips 0 (length configs)) same players) many
      few chips
  where
    conserves :
        (n c : ℕ)
        → t.players ≡ new_players c 0 n
        → 2 ≤ n
        → n ≤ 10
        → 0 < c
        → (r : Game) × (s : ShowdownResult) × (conduct_showdown k ≡ ok (r, s))
          × (stacks r.players + r.pot ≡ n * c)
    conserves n c held many few chips =
        let size : length t.players ≡ n = ap length held ∙ length-new_players c 0 n in
        let rich : keep_if has_chips t.players ≡ t.players =
          subst (λ ps. keep_if has_chips ps ≡ ps) (sym held) (all_have_chips c 0 n chips) in
        let (q, s, run', sum) =
          play-Conserves shuffle t h k keeps (omega (arith, size, many, ap length rich))
            (omega (arith, size, few)) started steps
            (subst DistinctIds (sym held) (new_players-DistinctIds c 0 n)) left in
        (q, s, run', sum ∙ ap stacks held ∙ stacks-new_players c 0 n)
