-- ===== src/Game/Board/NewRound.antt =====
-- `_start_new_betting_round` on the players, the money and the cards.
use adk_poker.Base.{◌+◌, ◌≤◌, ◌≡◌, refl, ◌∙◌, ap, List, [], ◌∷◌, map, All, arith}
use adk_poker.Cards.{Card}
use adk_poker.Cards.Deck.{copies}
use adk_poker.Game.Table.{held_copies}
use adk_poker.Player.{Player, reset_for_new_betting_round}
use adk_poker.Game.State.{Game, stacks, stakes}
use adk_poker.Game.Round.{start_new_betting_round}
use adk_poker.Game.Seated.{HoldsTwo}
use adk_poker.Game.Showdown.Shown.{ids_of}

-- A round's bets are set to 0, and nothing else of the players changes.
record Rested (ps qs : List Player) : Type 0 where
  chips : stacks qs ≡ stacks ps
  staked : stakes qs ≡ stakes ps
  ids : ids_of qs ≡ ids_of ps
  cards : (x : Card) → held_copies x qs ≡ held_copies x ps
  held : All HoldsTwo ps → All HoldsTwo qs

reset-Rested : (ps : List Player) → Rested ps (map reset_for_new_betting_round ps)
unfolding reset_for_new_betting_round
reset-Rested [] = record {
  chips = refl;
  staked = refl;
  ids = refl;
  cards = λ x. refl;
  held = λ _. tt;
}
reset-Rested (p ∷ ps) =
    let r = reset-Rested ps in
    record {
      chips = omega (arith, r.chips);
      staked = omega (arith, r.staked);
      ids = ap (◌∷◌ p.id) r.ids;
      cards = λ x. omega (arith, r.cards x);
      held = λ a. (a.0, r.held a.1);
    }

-- What a phase leaves alone. Cards on the board and in the deck were there before.
pub record SameStakes (g h : Game) : Type 0 where
  pub chips : stacks h.players ≡ stacks g.players
  pub staked : stakes h.players ≡ stakes g.players
  pub ids : ids_of h.players ≡ ids_of g.players
  pub cards : (x : Card) → held_copies x h.players ≡ held_copies x g.players
  pub kept :
      (x : Card)
      → copies x h.community_cards + copies x h.deck ≤ copies x g.community_cards + copies x g.deck
  pub held : All HoldsTwo g.players → All HoldsTwo h.players
  pub pot : h.pot ≡ g.pot

pub SameStakes-refl :
    (g h : Game)
    → h.players ≡ g.players
    → h.pot ≡ g.pot
    → ((x : Card)
        → copies x h.community_cards + copies x h.deck
          ≤ copies x g.community_cards + copies x g.deck)
    → SameStakes g h
SameStakes-refl g h e k fewer = record {
  kept = fewer;
  cards = λ x. rw e refl;
  chips = rw e refl;
  staked = rw e refl;
  ids = rw e refl;
  held = λ a. rw e a;
  pot = k;
}

-- The betting round of a new phase.
pub record Restarted (g h : Game) : Type 0 where
  pub same : SameStakes g h
  pub phase : h.current_phase ≡ g.current_phase
  pub deck : h.deck ≡ g.deck
  pub board : h.community_cards ≡ g.community_cards

round-players :
    (g : Game) → (start_new_betting_round g).players ≡ map reset_for_new_betting_round g.players
unfolding start_new_betting_round
round-players g = ground arith

round-pot : (g : Game) → (start_new_betting_round g).pot ≡ g.pot
unfolding start_new_betting_round
round-pot g = ground arith

pub start_new_betting_round-Restarted : (g : Game) → Restarted g (start_new_betting_round g)
unfolding start_new_betting_round
start_new_betting_round-Restarted g = record {
  same = stakes_same;
  phase = ground arith;
  deck = ground arith;
  board = ground arith;
}
  where
    stakes_same : SameStakes g (start_new_betting_round g)
    stakes_same =
        let r = reset-Rested g.players in
        let e = round-players g in
        record {
          chips = rw e r.chips;
          staked = rw e r.staked;
          ids = rw e r.ids;
          cards = λ x. rw e (r.cards x);
          kept = λ x. ground arith;
          held = λ a. rw e (r.held a);
          pot = round-pot g;
        }

pub SameStakes-trans : (f g h : Game) → SameStakes f g → SameStakes g h → SameStakes f h
SameStakes-trans f g h a b = record {
  chips = b.chips ∙ a.chips;
  staked = b.staked ∙ a.staked;
  ids = b.ids ∙ a.ids;
  cards = λ x. b.cards x ∙ a.cards x;
  kept = λ x. omega (arith, a.kept x, b.kept x);
  held = λ x. b.held (a.held x);
  pot = b.pot ∙ a.pot;
}
