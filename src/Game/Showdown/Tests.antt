-- ===== src/Game/Showdown/Tests.antt =====
-- A showdown with a side pot, by computation.
use adk_poker.Base.{
  ◌↔◌, ℕ, ◌≡◌, ◌+◌, ◌<◌, refl, List, [], ◌∷◌, ◌++◌, Option, none, some, map, true, false, All,
  length, arith, keep_if,
}
use adk_poker.Result.{Result, ok, Yields, ◌>>=◌}
use adk_poker.Cards.{Card, Suit, hearts, clubs, spades, diamonds}
use adk_poker.Player
use adk_poker.Player.{Player, Status}
use adk_poker.History.{new_db, river}
use adk_poker.Ranking
use adk_poker.Ranking.{HandRank, HandResult, compare_hands}
use adk_poker.Evaluator.{evaluate_hand, distinct}
use adk_poker.Game.State.{Game, ShowdownResult, find_player, put_player, stacks, stakes, in_hand}
use adk_poker.Game.Pots.{
  build_pot_layers, layers_from, sort_asc, insert_asc, contributions, bets_from,
  determine_winner_ids, winners_from, challenge, kickers_gt, Hands, stronger, ties,
}
use adk_poker.Game.Showdown.{
  conduct_showdown, showdown_among, show_hands, log_hands, hands_from, share_layers, share_layer,
  give_shares, settle, pay_out, sort_items, insert_item, log_showdown,
}
use adk_poker.Base.Int.{pos}
use adk_poker.Game.Showdown.Agreement.{stronger-compare_hands}
use adk_poker.Game.Showdown.Default.{PaysTwice, conduct_showdown-PaysTwice}
use adk_poker.Game.Showdown.Layers.{layer_sum, DistinctIds, layers-stakes}
use adk_poker.Game.Showdown.Shown.{HaveCards}
use adk_poker.Game.Showdown.Winners.{HoldsTie, Judged, determine_winner_ids-Judged}
use adk_poker.Game.Showdown.Payment.{conduct_showdown-Conserves}
use adk_poker.Game.Showdown.Emptied.{conduct_showdown-empties}

-- All that a showdown computes with.
program : Unit {0}
unfolding conduct_showdown showdown_among show_hands evaluate_hand log_hands hands_from share_layers
    share_layer give_shares build_pot_layers layers_from sort_asc insert_asc contributions bets_from
    determine_winner_ids winners_from challenge kickers_gt settle pay_out sort_items insert_item
    log_showdown find_player put_player new_db distinct
program = tt

abbrev card : ℕ → Suit → Card
card rank suit = record { rank = rank; suit = suit }

abbrev seated : ℕ → ℕ → ℕ → Status → List Card → Player
seated id chips staked status cards = record {
  id = id;
  chips = chips;
  hole_cards = cards;
  current_bet = 0;
  total_bet_this_hand = staked;
  status = status;
  is_dealer = false;
  is_small_blind = false;
  is_big_blind = false;
}

abbrev tens : List Card
tens = card 10 hearts ∷ card 10 clubs ∷ []

abbrev nines : List Card
nines = card 9 hearts ∷ card 9 clubs ∷ []

abbrev low_pair : List Card
low_pair = card 3 hearts ∷ card 3 clubs ∷ []

abbrev board : List Card
board = card 2 spades ∷ card 5 diamonds ∷ card 7 clubs ∷ card 12 hearts ∷ card 13 spades ∷ []

abbrev table : Game
table = record {
  small_blind = 10;
  big_blind = 20;
  initial_chips = 1000;
  players =
      seated 0 0 50 Player.all_in tens
      ∷ seated 1 100 201 Player.active nines
      ∷ seated 2 80 201 Player.active low_pair
      ∷ seated 3 70 30 Player.folded []
      ∷ [];
  dealer_button = 0;
  current_player_index = 1;
  deck = [];
  community_cards = board;
  current_phase = river;
  pot = 482;
  current_bet = 0;
  hand_number = 1;
  betting_round_complete = true;
  last_raiser_index = none;
  has_bet_or_raise_this_round = false;
  action_history = [];
  last_showdown_results = none;
  db = new_db;
  current_hand_id = none;
}

abbrev made : HandRank → List ℕ → Option HandResult
made rank kickers =
    some (record { rank = rank; cards = []; kickers = kickers; description = Ranking.royal })

-- Two equal pairs and a lower one.
abbrev split_hands : Hands
split_hands =
    (0, made Ranking.one_pair (9 ∷ 13 ∷ 12 ∷ 7 ∷ []))
    ∷ (1, made Ranking.one_pair (3 ∷ 13 ∷ 12 ∷ 7 ∷ []))
    ∷ (2, made Ranking.one_pair (9 ∷ 13 ∷ 12 ∷ 7 ∷ []))
    ∷ []

determine_winner_ids-Judged_example :
    (winners : List ℕ) × (best : HandResult) × (determine_winner_ids split_hands (0 ∷ 1 ∷ 2 ∷ [])
      ≡ (winners, some best))
    × All (HoldsTie split_hands best) winners
    × (0 < length winners)
    × All (Judged split_hands winners best) (0 ∷ 1 ∷ 2 ∷ [])
determine_winner_ids-Judged_example =
    determine_winner_ids-Judged split_hands 0 (1 ∷ 2 ∷ []) (_, refl)

abbrev after : Result (Game × ShowdownResult) → Result (List ℕ)
after r = r >>= λ s. ok (s.0.pot ∷ map (λ (p : Player). p.chips) s.0.players ++ s.1.winners)

showdown_run : after (conduct_showdown table) ≡ ok (0 ∷ 180 ∷ 402 ∷ 80 ∷ 70 ∷ 0 ∷ [])
unfolding program
showdown_run = refl

distinct_ids : DistinctIds table.players
distinct_ids = ground arith

have_cards : HaveCards table.community_cards (keep_if in_hand table.players)
have_cards = (omega arith, (omega arith, (omega arith, tt)))

layers-stakes_example :
    layer_sum (build_pot_layers (contributions table.players)) ≡ stakes table.players
layers-stakes_example = layers-stakes table.players distinct_ids

conduct_showdown-Conserves_example :
    (h : Game) × (s : ShowdownResult) × (conduct_showdown table ≡ ok (h, s))
    × (stacks h.players + h.pot ≡ stacks table.players + table.pot)
conduct_showdown-Conserves_example =
    conduct_showdown-Conserves table distinct_ids have_cards refl (omega arith)

abbrev biggest : Player
biggest = seated 1 100 201 Player.active nines

biggest_found : find_player 1 table.players ≡ some biggest
unfolding find_player
biggest_found = refl

conduct_showdown-empties_example :
    (h : Game) × (s : ShowdownResult) × (conduct_showdown table ≡ ok (h, s))
    × (stacks h.players ≡ stacks table.players + table.pot)
    × (h.pot ≡ 0)
conduct_showdown-empties_example =
    conduct_showdown-empties table biggest distinct_ids have_cards refl (omega arith) biggest_found
      refl (omega arith, (omega arith, (omega arith, (omega arith, tt)))) (omega arith)

abbrev pair_with : List ℕ → HandResult
pair_with kickers = record {
  rank = Ranking.one_pair;
  cards = [];
  kickers = kickers;
  description = Ranking.royal;
}

stronger-compare_hands_example :
    ((stronger (pair_with (9 ∷ 13 ∷ [])) (pair_with (9 ∷ 12 ∷ [])) ≡ true)
      ↔ (compare_hands (pair_with (9 ∷ 13 ∷ [])) (pair_with (9 ∷ 12 ∷ [])) ≡ pos 1))
    × ((ties (pair_with (9 ∷ 13 ∷ [])) (pair_with (9 ∷ 12 ∷ [])) ≡ true)
        ↔ (compare_hands (pair_with (9 ∷ 13 ∷ [])) (pair_with (9 ∷ 12 ∷ [])) ≡ pos 0))
stronger-compare_hands_example =
    stronger-compare_hands (pair_with (9 ∷ 13 ∷ [])) (pair_with (9 ∷ 12 ∷ [])) (λ _. refl)

-- Only the player of id 1 is left.
abbrev deserted : Game
deserted = record table { players = seated 0 0 50 Player.folded tens ∷ biggest ∷ [] }

conduct_showdown-PaysTwice_example : Yields (PaysTwice deserted biggest) (conduct_showdown deserted)
unfolding find_player
conduct_showdown-PaysTwice_example = conduct_showdown-PaysTwice deserted biggest refl refl
