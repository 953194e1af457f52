-- ===== src/Game/Hand.antt =====
-- The start of a hand: `start_new_hand` and what it calls, in its order. `random.shuffle` is the
-- parameter `shuffle`.
pub mod Seats
pub mod Button
pub mod Blinds
pub mod Dealing
pub mod Actor
pub mod Start
use adk_poker.Base.{
  ℕ, suc, ◌+◌, ◌-◌, ◌%◌, Bool, true, false, not, List, [], ◌∷◌, map, ltb, ◌==◌, if◌then◌else◌,
  length, none, some, get_elem?, set, keep_if, contains,
}
use adk_poker.Base.Int.{pos}
use adk_poker.Result.{Result, ok, raise, value_error, index_error, ◌>>=◌, or_raise}
use adk_poker.Cards.{Card, reset_deck, deal_card}
use adk_poker.Player.{Player, is_busted, is_folded, bet, reset_for_new_hand, add_hole_card}
use adk_poker.History
use adk_poker.History.{preflop, finished, ActionType}
use adk_poker.Game.State.{
  Game, Entry, posted_small_blind, posted_big_blind, seats, not_busted, log_entry, log_action,
}

-- `xs.index(x)`, from position `i`.
unfoldable pub index_from : ℕ → ℕ → List ℕ → Result ℕ
index_from i x [] = raise value_error
index_from i x (y ∷ ys) = let rest = index_from (suc i) x ys in if y == x then ok i else rest

abbrev pub index_of : ℕ → List ℕ → Result ℕ
index_of = index_from 0

-- `xs[i]`
abbrev pub at {ℓ} : {A : Type ℓ} → List A → ℕ → Result A
at xs i = or_raise (get_elem? xs i) index_error

-- `player.is_dealer = i == self.dealer_button`, for each player.
unfoldable pub flag_dealer : ℕ → ℕ → List Player → List Player
flag_dealer dealer i [] = []
flag_dealer dealer i (p ∷ ps) = record p { is_dealer = i == dealer } ∷ flag_dealer dealer (suc i) ps

-- The seat of the next dealer among the seats in play.
unfoldable pub next_dealer : ℕ → List ℕ → Result ℕ
unfolding index_from
next_dealer dealer active =
    if not (contains dealer active)
    then at active 0
    else do position ← index_of dealer active; at active ((position + 1) % length active)

-- `_move_dealer_button`
unfoldable pub move_dealer_button : Game → Result Game
move_dealer_button g = elim (seats not_busted g) [
  | [] ↦ ok g
  | first ∷ others ↦ do
    dealer ← next_dealer g.dealer_button (first ∷ others)
    ok (record g { dealer_button = dealer; players = flag_dealer dealer 0 g.players })
]

-- One blind: the flag, the bet, the pot, the history and the database. Returns the bet.
unfoldable pub post_blind :
    (Player → Player) → (ℕ → ℕ → Entry) → ActionType → ℕ → ℕ → Game → Result (Game × ℕ)
post_blind flag entry action seat amount g = do
  p ← at g.players seat
  let (q, paid) = bet (pos amount) (flag p)
  let h =
      log_entry (entry seat paid) (record g { players = set g.players seat q; pot = g.pot + paid })
  ok (log_action preflop q.id action (pos paid) h, paid)

abbrev pub flag_small : Player → Player
flag_small p = record p { is_small_blind = true }

abbrev pub flag_big : Player → Player
flag_big p = record p { is_big_blind = true }

-- The seats of the two blinds; `position` is the dealer's among the seats in play.
unfoldable pub blind_seats : ℕ → ℕ → List ℕ → Result (ℕ × ℕ)
blind_seats dealer position active =
    if length active == 2 then (at active (1 - position) >>= λ other. ok (dealer, other)) else do
      small ← at active ((position + 1) % length active)
      big ← at active ((position + 2) % length active)
      ok (small, big)

-- `_post_blinds`
unfoldable pub post_blinds : Game → Result Game
post_blinds g = if ltb (length (seats not_busted g)) 2 then ok g else do
  position ← index_of g.dealer_button (seats not_busted g)
  (small, big) ← blind_seats g.dealer_button position (seats not_busted g)
  (g', _) ← post_blind flag_small posted_small_blind ActionType.small_blind small g.small_blind g
  (h, paid) ← post_blind flag_big posted_big_blind ActionType.big_blind big g'.big_blind g'
  ok (record h { current_bet = paid; last_raiser_index = some big })

-- One round of `_deal_hole_cards`: a card for each player that is not busted.
unfoldable pub deal_round : List Player → List Card → Result (List Player × List Card)
deal_round [] deck = ok ([], deck)
deal_round (p ∷ ps) deck =
    let dealt = (do
      (card, deck') ← deal_card deck
      q ← add_hole_card card p
      (qs, deck'') ← deal_round ps deck'
      ok (q ∷ qs, deck'')) in
    let skipped = deal_round ps deck >>= λ (qs, deck'). ok (p ∷ qs, deck') in
    if not_busted p then dealt else skipped

-- `_deal_hole_cards`
unfoldable pub deal_hole_cards : Game → Result Game
deal_hole_cards g = do
  (once, deck) ← deal_round g.players g.deck
  (twice, deck') ← deal_round once deck
  ok (record g { players = twice; deck = deck' })

-- `p.status not in [BUSTED, FOLDED]`
abbrev pub takes_part : Player → Bool
takes_part p = if is_busted p.status then false else not (is_folded p.status)

-- `_set_first_actor_preflop`
unfoldable pub set_first_actor_preflop : Game → Result Game
unfolding index_from
set_first_actor_preflop g =
    if ltb (length (seats takes_part g)) 2
    then ok (record g { betting_round_complete = true })
    else if not (contains g.dealer_button (seats takes_part g))
    then (at (seats takes_part g) 0 >>= λ i. ok (record g { current_player_index = i }))
    else do
      position ← index_of g.dealer_button (seats takes_part g)
      if length (seats takes_part g) == 2
          then ok (record g { current_player_index = g.dealer_button })
          else do
            i ← at (seats takes_part g) ((position + 3) % length (seats takes_part g))
            ok (record g { current_player_index = i })

-- The fields that `start_new_hand` resets, the deck and the players with them.
unfoldable pub clear_table : List Card → Game → Game
clear_table deck g = record g {
  players = map reset_for_new_hand g.players;
  deck = deck;
  community_cards = [];
  current_phase = preflop;
  pot = 0;
  current_bet = 0;
  hand_number = g.hand_number + 1;
  betting_round_complete = false;
  last_raiser_index = none;
  has_bet_or_raise_this_round = false;
  last_showdown_results = none;
}

-- `self.db.start_new_hand(…)` with the ids of the players in play.
unfoldable pub open_hand : Game → Result Game
open_hand g = do
  dealer ← at g.players g.dealer_button
  let (hand, db) =
      History.start_new_hand g.small_blind g.big_blind dealer.id
        (map (λ (p : Player). p.id) (keep_if not_busted g.players)) g.db
  ok (record g { current_hand_id = some hand; db = db })

-- `start_new_hand`
unfoldable pub start_new_hand : (List Card → List Card) → Game → Result Game
start_new_hand shuffle g = do
  deck ← reset_deck shuffle
  let cleared = clear_table deck g
  if ltb (length (keep_if not_busted cleared.players)) 2
      then ok (record cleared { current_phase = finished })
      else do
        moved ← move_dealer_button cleared
        posted ← post_blinds moved
        dealt ← deal_hole_cards posted
        ready ← set_first_actor_preflop dealt
        open_hand ready
