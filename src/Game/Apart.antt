-- ===== src/Game/Apart.antt =====
-- The cards of a hand: in the players' hands, on the board and in the deck, from `start_new_hand` on.
use mathlib.Core.Path.{subst}
use adk_poker.Base.{ℕ, ◌+◌, ◌≤◌, ◌≡◌, ap, List, length, keep_if, arith}
use adk_poker.Result.{ok}
use adk_poker.Cards.{Suit, Card}
use adk_poker.Cards.Deck.{copies, reset_deck-copies}
use adk_poker.Player.{Player}
use adk_poker.Game.State.{Game}
use adk_poker.Game.Table.{held_copies}
use adk_poker.Game.Seated.{process-Seated}
use adk_poker.Game.Hand.{start_new_hand}
use adk_poker.Game.Hand.Start.{has_chips, start_new_hand-Started}
use adk_poker.Game.Board.Advance.{advance_to_next_phase-Moved}
use adk_poker.Game.Play.{Step, act, advance, Steps, done, next, Sound, Steps-Sound, Started-Sound}

-- How often a card is at the table.
abbrev pub seen : Card → Game → ℕ
seen x g = held_copies x g.players + copies x g.community_cards + copies x g.deck

-- No call brings a card to the table.
Step-seen : (ps : List Player) {g h : Game} (x : Card) → Step g h → Sound ps g → seen x h ≤ seen x g
Step-seen ps x (act {g = g} id action amount) s =
    let k = process-Seated id action amount g in
    omega (arith, k.cards x, ap (copies x) k.same.board, ap (copies x) k.same.deck)
Step-seen ps x (advance {g = g} {h = h} {b = b} e) s =
    let (r, run, (m, _, _)) = advance_to_next_phase-Moved g s.stocked in
    let same : r ≡ (h, b) = cc in
    subst (λ t. seen x t.0 ≤ seen x g) same (omega (arith, m.cards x, m.kept x))

Steps-seen :
    (ps : List Player) {g h : Game} (x : Card) → Steps g h → Sound ps g → seen x h ≤ seen x g
Steps-seen ps x done s = omega arith
Steps-seen ps x (next before step) s =
    let a = Steps-seen ps x before s in
    let b = Step-seen ps x step (Steps-Sound ps before s) in omega (arith, a, b)

-- At no point of a hand is a card in two places, or in one place twice: whatever calls of
-- process_player_action and advance_to_next_phase have been made, a card from 2 to the ace is at
-- most once in all the players' hands, on the board and in the deck. (There are two to ten
-- players, two of them with chips, and the shuffle keeps how often each card is in the deck, and
-- the number of cards.)
pub play-Apart :
    (shuffle : List Card → List Card) (g h k : Game)
    → ((cards : List Card) → length (shuffle cards) ≡ length cards)
    → ((c : Card) (cards : List Card) → copies c (shuffle cards) ≡ copies c cards)
    → 2 ≤ length (keep_if has_chips g.players)
    → length g.players ≤ 10
    → start_new_hand shuffle g ≡ ok h
    → Steps h k
    → (rank : ℕ) (suit : Suit) → 2 ≤ rank
    → rank ≤ 14
    → seen (record { rank = rank; suit = suit }) k ≤ 1
play-Apart shuffle g h k keeps same_cards many few started steps rank suit low high =
    let x : Card = record { rank = rank; suit = suit } in
    let (f, run, s) = start_new_hand-Started shuffle g keeps many few in
    let same : f ≡ h = cc in
    let (full, made, all) = s.cards in
    let (deck, made', once) = reset_deck-copies shuffle same_cards rank suit low high in
    let one : deck ≡ full = cc in
    let sound = subst (Sound g.players) same (Started-Sound shuffle g f few s) in
    let begun : seen x f ≤ 1 =
      omega (arith, all x, once, ap (copies x) s.board, ap (copies x) one) in
    let begun' = subst (λ t. seen x t ≤ 1) same begun in
    let later = Steps-seen g.players x steps sound in omega (arith, begun', later)
