-- ===== src/Game/Showdown.antt =====
-- `PokerGame.conduct_showdown`: the shares of the pot's layers, and the bookkeeping. A player object
-- is named by its id, and ids differ.
pub mod Agreement
pub mod Layers
pub mod Winners
pub mod Shares
pub mod Shown
pub mod Paid
pub mod Payment
pub mod Emptied
pub mod Default
mod Tests
use adk_poker.Base.{
  ℕ, suc, ◌+◌, ◌-◌, ◌/◌, ◌%◌, Bool, List, [], ◌∷◌, map, leb, ltb, ◌==◌, if◌then◌else◌, length,
  Option, none, some, keep_if, contains,
}
use adk_poker.Base.Dict.{Dict, insert, keys, get_or_zero}
use adk_poker.Result.{Result, ok, raise, zero_division, ◌>>=◌}
use adk_poker.Cards.{Card}
use adk_poker.Ranking.{HandResult}
use adk_poker.Evaluator.{evaluate_hand}
use adk_poker.Player.{Player}
use adk_poker.Game.Pots.{
  Layer, contributions, build_pot_layers, Hands, hand_of, determine_winner_ids, sort_asc,
}
use adk_poker.History
use adk_poker.Game.State.{
  Game, no_remaining_players, won_by_default, shown_hand, pot_layer, Award, ShowdownResult,
  find_player, put_player, in_hand, log_entry,
}

-- `winnings_map` and `total_awarded`
pub record Payout : Type 0 where
  pub winnings : Dict ℕ
  pub awarded : ℕ

-- The loop that gives out the shares of one layer; `i` counts the winners.
unfoldable pub give_shares : ℕ → ℕ → ℕ → List ℕ → Payout → Payout
give_shares base remainder i [] pay = pay
give_shares base remainder i (pid ∷ ids) pay =
    let share = base + (if ltb i remainder then 1 else 0) in
    give_shares base remainder (suc i) ids (record {
      winnings = insert pid (get_or_zero pid pay.winnings + share) pay.winnings;
      awarded = pay.awarded + share;
    })

-- A layer with somebody eligible: its winners share it. Without a winner the division by their
-- number raises.
unfoldable pub share_layer : Hands → ℕ → Layer → List ℕ → Payout × Game → Result (Payout × Game)
share_layer hands i layer eligible (pay, g) =
    let (winners, best) = determine_winner_ids hands eligible in
    if length winners == 0
    then raise zero_division
    else ok (
      give_shares (layer.amount / length winners) (layer.amount % length winners) 0
          (sort_asc winners) pay,
      log_entry (pot_layer i layer.amount (sort_asc winners) best) g,
    )

-- The loop over the layers; `i` is the layer's number. A layer without anyone eligible is skipped.
unfoldable pub share_layers :
    Hands → List ℕ → ℕ → List Layer → Payout × Game → Result (Payout × Game)
share_layers hands shown i [] state = ok state
share_layers hands shown i (layer ∷ layers) state =
    elim (keep_if (λ pid. contains pid shown) layer.contributors) [
      | [] ↦ share_layers hands shown (suc i) layers state
      | pid ∷ ids ↦ share_layer hands i layer (pid ∷ ids) state >>= λ next.
          share_layers hands shown (suc i) layers next
    ]

-- `sorted(winnings_map.items())`, whose keys differ.
unfoldable pub insert_item : ℕ × ℕ → Dict ℕ → Dict ℕ
insert_item e [] = e ∷ []
insert_item e (f ∷ d) = let rest = insert_item e d in if leb e.0 f.0 then e ∷ f ∷ d else f ∷ rest

unfoldable pub sort_items : Dict ℕ → Dict ℕ
sort_items [] = []
sort_items (e ∷ d) = insert_item e (sort_items d)

-- The chips are paid out, and `results` is made.
unfoldable pub pay_out : Hands → Dict ℕ → List Player → List Player × List Award
pay_out hands [] ps = (ps, [])
pay_out hands ((pid, amount) ∷ d) ps = elim (find_player pid ps) [
  | none ↦ pay_out hands d ps
  | some p ↦
      let (ps', awards) =
        pay_out hands d (put_player pid (record p { chips = p.chips + amount }) ps) in
      (ps', record { player_id = pid; hand = hand_of pid hands; winnings = amount } ∷ awards)
]

-- `player_hands`: the hand of each player that is left.
unfoldable pub show_hands : List Card → List Player → Result (List (Player × Option HandResult))
show_hands community [] = ok []
show_hands community (p ∷ ps) = do
  hand ← evaluate_hand p.hole_cards community
  rest ← show_hands community ps
  ok ((p, hand) ∷ rest)

-- The lines of the history that show the hands.
unfoldable pub log_hands : List (Player × Option HandResult) → Game → Game
log_hands [] g = g
log_hands ((p, hand) ∷ shown) g = log_hands shown (log_entry (shown_hand p.id hand p.hole_cards) g)

-- `hands_by_id`
unfoldable pub hands_from : Hands → List (Player × Option HandResult) → Hands
hands_from d [] = d
hands_from d ((p, hand) ∷ shown) = hands_from (insert p.id hand d) shown

-- The rows of `showdown_results`.
unfoldable pub record_hands :
    ℕ → Dict ℕ → List (Player × Option HandResult) → History.HistoryDb → History.HistoryDb
record_hands hand_id winnings [] db = db
record_hands hand_id winnings ((p, hand) ∷ shown) db = record_hands hand_id winnings shown (
    History.record_showdown
      (record {
        hand_id = hand_id;
        player_id = p.id;
        hole_cards = p.hole_cards;
        hand_rank = hand;
        winnings = get_or_zero p.id winnings;
      })
      db)

-- `if self.current_hand_id is not None:` record the hands, and end the hand.
unfoldable pub log_showdown : Dict ℕ → List (Player × Option HandResult) → Game → Game
log_showdown winnings shown g = elim g.current_hand_id [
  | none ↦ g
  | some hand ↦ record g { db = History.end_hand hand (record_hands hand winnings shown g.db) }
]

-- After the layers: the chips are paid, the pot is lowered, the result is kept and recorded.
unfoldable pub settle :
    Hands → List (Player × Option HandResult) → Payout → Game → Game × ShowdownResult
settle hands shown pay h =
    let (players, awards) = pay_out hands (sort_items pay.winnings) h.players in
    let result : ShowdownResult = record {
      winners = (determine_winner_ids hands (keys hands)).0;
      results = awards;
      all_hands = map (λ (s : Player × Option HandResult). (s.0.id, s.1, s.0.hole_cards)) shown;
    } in
    (
      log_showdown pay.winnings shown (record h {
        players = players;
        pot = h.pot - pay.awarded;
        last_showdown_results = some result;
      }),
      result,
    )

-- Two players or more are left.
unfoldable pub showdown_among : List Player → Game → Result (Game × ShowdownResult)
showdown_among remaining g = do
  shown ← show_hands g.community_cards remaining
  let hands = hands_from [] shown
  (pay, h) ←
      share_layers hands (map (λ (p : Player). p.id) remaining) 0
        (build_pot_layers (contributions g.players))
        (record { winnings = []; awarded = 0 }, log_hands shown g)
  ok (settle hands shown pay h)

-- One player is left, who gets the pot; `pot` itself is not written.
unfoldable pub win_by_default : Player → Game → Game × ShowdownResult
win_by_default p g =
    let result : ShowdownResult = record {
      winners = p.id ∷ [];
      results = record { player_id = p.id; hand = none; winnings = g.pot } ∷ [];
      all_hands = [];
    } in
    (
      log_entry (won_by_default p.id g.pot) (record g {
        players = put_player p.id (record p { chips = p.chips + g.pot }) g.players;
        last_showdown_results = some result;
      }),
      result,
    )

-- `conduct_showdown`
unfoldable pub conduct_showdown : Game → Result (Game × ShowdownResult)
conduct_showdown g =
    let nobody : ShowdownResult = record { winners = []; results = []; all_hands = [] } in
    elim (keep_if in_hand g.players) [
      | [] ↦ ok (
        log_entry no_remaining_players (record g { last_showdown_results = some nobody }),
        nobody,
      )
      | p ∷ [] ↦ ok (win_by_default p g)
      | p ∷ q ∷ ps ↦ showdown_among (p ∷ q ∷ ps) g
    ]

-- `is_game_over`
unfoldable pub is_game_over : Game → Bool
is_game_over g = leb (length (keep_if (λ (p : Player). ltb 0 p.chips) g.players)) 1
