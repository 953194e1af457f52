-- ===== src/Game/Board.antt =====
-- The community cards and the phases: `_deal_flop`, `_deal_turn`, `_deal_river` and
-- `advance_to_next_phase`.
pub mod Streets
pub mod NewRound
pub mod Advance
use adk_poker.Base.{
  ℕ, suc, zero, Bool, true, false, not, [], ◌∷◌, ◌++◌, leb, if◌then◌else◌, length, none, some,
  keep_if,
}
use adk_poker.Result.{Result, ok, ◌>>=◌}
use adk_poker.Cards.{Card, deal_card}
use adk_poker.History
use adk_poker.History.{Phase, preflop, flop, turn, river, showdown, finished}
use adk_poker.Game.State.{Game, Entry, flop_dealt, turn_dealt, river_dealt, in_hand, log_entry}
use adk_poker.Game.Round.{start_new_betting_round}

-- `self.community_cards.append(self.deck.deal_card())`, `n` times.
unfoldable pub deal_community : ℕ → Game → Result Game
deal_community zero g = ok g
deal_community (suc n) g = do
  (card, deck) ← deal_card g.deck
  deal_community n (record g { deck = deck; community_cards = g.community_cards ++ card ∷ [] })

-- The burn card, then `n` cards.
unfoldable pub burn_and_deal : ℕ → Game → Result Game
burn_and_deal n g = do (_, deck) ← deal_card g.deck; deal_community n (record g { deck = deck })

-- `if self.current_hand_id is not None: self.db.record_community_cards(…)`
unfoldable pub log_board : Phase → Game → Game
log_board phase g = elim g.current_hand_id [
  | none ↦ g
  | some hand ↦ record g {
    db =
        History.record_community_cards
          (record { hand_id = hand; phase = phase; cards = g.community_cards }) g.db;
  }
]

-- `_deal_flop`
unfoldable pub deal_flop : Game → Result Game
deal_flop g = do
  h ← burn_and_deal 3 g
  ok (log_board flop (log_entry (flop_dealt h.community_cards) h))

-- `_deal_turn` and `_deal_river` with their line of the history, which names the last card.
unfoldable pub deal_street : (Card → Entry) → Phase → Game → Result Game
deal_street entry phase g = do
  (_, deck) ← deal_card g.deck
  (card, deck') ← deal_card deck
  let h = record g { deck = deck'; community_cards = g.community_cards ++ card ∷ [] }
  ok (log_board phase (log_entry (entry card) h))

-- The next phase with its cards and its betting round; the flag is what is returned.
unfoldable pub next_street : Phase → Game → Result (Game × Bool)
next_street preflop g = do
  h ← deal_flop (record g { current_phase = flop })
  ok (start_new_betting_round h, true)
next_street flop g = do
  h ← deal_street turn_dealt turn (record g { current_phase = turn })
  ok (start_new_betting_round h, true)
next_street turn g = do
  h ← deal_street river_dealt river (record g { current_phase = river })
  ok (start_new_betting_round h, true)
next_street river g = ok (record g { current_phase = showdown }, true)
next_street showdown g = ok (g, false)
next_street finished g = ok (g, false)

-- `advance_to_next_phase`
unfoldable pub advance_to_next_phase : Game → Result (Game × Bool)
advance_to_next_phase g =
    if not g.betting_round_complete
    then ok (g, false)
    else if leb (length (keep_if in_hand g.players)) 1
    then ok (record g { current_phase = showdown }, true)
    else next_street g.current_phase g
