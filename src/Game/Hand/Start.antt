-- ===== src/Game/Hand/Start.antt =====
-- `PokerGame.start_new_hand` as a whole.
use adk_poker.Base.{
  ◌+◌, ◌*◌, ◌≤◌, ◌≡◌, refl, ◌∙◌, ap, Bool, true, false, List, [], ◌∷◌, map, length, keep_if,
  contains, All, arith, ltb, if◌then◌else◌,
}
use adk_poker.Result.{ok, Yields, bind-Yields, ◌>>=◌}
use adk_poker.Cards.{Card, reset_deck}
use adk_poker.Cards.Deck.{copies}
use adk_poker.Player.{Player, reset_for_new_hand}
use adk_poker.History
use adk_poker.Game.Table.{held_copies}
use adk_poker.Game.State.{Game, seats, not_busted, in_hand, stacks, stakes}
use adk_poker.Game.Seated.{HoldsTwo}
use adk_poker.Game.Hand.{
  set_first_actor_preflop, clear_table, open_hand, start_new_hand, move_dealer_button, post_blinds,
  deal_hole_cards,
}
use adk_poker.Game.Hand.Seats.{length-seats_from}
use adk_poker.Game.Hand.Button.{Opening, Holds, Buttoned, move_dealer_button-Yields}
use adk_poker.Game.Hand.Blinds.{post_blinds-Yields}
use adk_poker.Game.Hand.Actor.{SameHand, set_first_actor_preflop-Yields, open_hand-Yields}
use adk_poker.Game.Hand.Dealing.{Dealt, deal_hole_cards-Yields}
use adk_poker.Game.Showdown.Shown.{ids_of}

-- A full deck has 52 cards.
reset_deck-Yields :
    (shuffle : List Card → List Card)
    → ((cards : List Card) → length (shuffle cards) ≡ length cards)
    → Yields (λ deck. length deck ≡ 52) (reset_deck shuffle)
unfolding reset_deck
reset_deck-Yields shuffle keeps = (_, refl, keeps _)

reset-stacks : (ps : List Player) → stacks (map reset_for_new_hand ps) ≡ stacks ps
unfolding reset_for_new_hand
reset-stacks [] = refl
reset-stacks (p ∷ ps) = omega (arith, reset-stacks ps)

reset-stakes : (ps : List Player) → stakes (map reset_for_new_hand ps) ≡ 0
unfolding reset_for_new_hand
reset-stakes [] = refl
reset-stakes (p ∷ ps) = omega (arith, reset-stakes ps)

reset-ids : (ps : List Player) → ids_of (map reset_for_new_hand ps) ≡ ids_of ps
unfolding reset_for_new_hand
reset-ids [] = refl
reset-ids (p ∷ ps) = ap (◌∷◌ p.id) (reset-ids ps)

reset-Holds : (ps : List Player) → All (Holds 0) (map reset_for_new_hand ps)
unfolding reset_for_new_hand
reset-Holds [] = tt
reset-Holds (p ∷ ps) = ((λ _. refl), reset-Holds ps)

reset-held : (x : Card) (ps : List Player) → held_copies x (map reset_for_new_hand ps) ≡ 0
unfolding reset_for_new_hand
reset-held x [] = refl
reset-held x (p ∷ ps) = omega (arith, reset-held x ps)

-- The players with chips are those in play.
abbrev pub has_chips : Player → Bool
has_chips p = ltb 0 p.chips

reset-playing :
    (ps : List Player)
    → length (keep_if not_busted (map reset_for_new_hand ps)) ≡ length (keep_if has_chips ps)
unfolding reset_for_new_hand
reset-playing [] = refl
reset-playing (p ∷ ps) = ground (arith, reset-playing ps)

pub length-keep_if : (f : Player → Bool) (ps : List Player) → length (keep_if f ps) ≤ length ps
length-keep_if f [] = omega arith
length-keep_if f (p ∷ ps) = ground (arith, length-keep_if f ps)

Holds-HoldsTwo : (ps : List Player) → All (Holds 2) ps → All HoldsTwo ps
Holds-HoldsTwo [] a = tt
Holds-HoldsTwo (p ∷ ps) a = ((λ stays. a.0 (playing p stays)), Holds-HoldsTwo ps a.1)
  where
    playing : (q : Player) → in_hand q ≡ true → not_busted q ≡ true
    playing q h = ground arith

-- A hand has been started from the table `g`. All cards of the shuffled deck are in the hands and
-- in the deck that is left, and no others.
pub record Started (shuffle : List Card → List Card) (g h : Game) : Type 0 where
  pub chips : stacks h.players + h.pot ≡ stacks g.players
  pub pot : h.pot ≡ stakes h.players
  pub ids : ids_of h.players ≡ ids_of g.players
  pub held : All HoldsTwo h.players
  pub cards :
      (full : List Card) × (reset_deck shuffle ≡ ok full)
      × ((x : Card) → held_copies x h.players + copies x h.deck ≡ copies x full)
  pub deck : length h.deck + 2 * length (keep_if has_chips g.players) ≡ 52
  pub board : h.community_cards ≡ []
  pub phase : h.current_phase ≡ History.preflop

Dealt-same : (c g h : Game) → SameHand g h → Dealt c g → Dealt c h
Dealt-same c g h s d = record {
  money = record {
    chips = rw (s.players, s.pot) d.money.chips;
    staked = rw (s.players, s.pot) d.money.staked;
  };
  ids = rw s.players d.ids;
  places = rw s.players d.places;
  held = rw s.players d.held;
  cards = rw (s.players, s.deck) d.cards;
  left = rw s.deck d.left;
  board = s.board ∙ d.board;
  phase = s.phase ∙ d.phase;
}

-- The steps from the cleared table on.
deal_in-Dealt :
    (c : Game)
    → All (Holds 0) c.players
    → 2 ≤ length (seats not_busted c)
    → 2 * length (seats not_busted c) ≤ length c.deck
    → Yields (Dealt c) (
        move_dealer_button c >>= λ moved. post_blinds moved >>= λ posted.
        deal_hole_cards posted >>= λ dealt.
        set_first_actor_preflop dealt >>= λ ready. open_hand ready)
deal_in-Dealt c held many enough =
    bind-Yields (Buttoned 0 c) (Dealt c) _ _ (move_dealer_button-Yields c held (omega arith))
      λ m (o1, d1).
        bind-Yields (λ b. Opening 0 c b × (b.dealer_button ≡ m.dealer_button)) (Dealt c) _ _
          (post_blinds-Yields c m o1 (rw o1.places d1) (rw o1.places many))
          λ b (o2, d2).
            bind-Yields (λ t. Dealt c t × (t.dealer_button ≡ b.dealer_button)) (Dealt c) _ _
              (deal_hole_cards-Yields c b o2 enough)
              λ t (o3, d3).
                bind-Yields (SameHand t) (Dealt c) _ _ (set_first_actor_preflop-Yields t) λ f s4.
                  let o4 = Dealt-same c t f s4 o3 in
                  let d4 : contains f.dealer_button (seats not_busted f) ≡ true =
                    rw (s4.dealer, d3, d2, o4.places) d1 in
                  let (h, run, s5) = open_hand-Yields f d4 in (h, run, Dealt-same c f h s5 o4)

-- With two players or more who have chips, and ten at most, a hand starts without an exception, if
-- the shuffle keeps the number of cards. No chip is made or lost, the pot is what was staked, the
-- ids stay, whoever is in the hand holds two cards, and each card is in the hands and in the deck
-- that is left as often as in the shuffled deck of 52; the board is empty and the phase is before
-- the flop.
pub start_new_hand-Started :
    (shuffle : List Card → List Card) (g : Game)
    → ((cards : List Card) → length (shuffle cards) ≡ length cards)
    → 2 ≤ length (keep_if has_chips g.players)
    → length g.players ≤ 10
    → Yields (Started shuffle g) (start_new_hand shuffle g)
unfolding start_new_hand clear_table
start_new_hand-Started shuffle g keeps many few =
    let (deck, run, full) = reset_deck-Yields shuffle keeps in
    let (h, run', d) = from_deck deck full run in (h, rw run run', d)
  where
    from_deck :
        (deck : List Card)
        → length deck ≡ 52
        → reset_deck shuffle ≡ ok deck
        → Yields (Started shuffle g) (
            if ltb (length (keep_if not_busted (map reset_for_new_hand g.players))) 2
            then ok (record (clear_table deck g) { current_phase = History.finished })
            else (move_dealer_button (clear_table deck g) >>= λ moved.
                post_blinds moved >>= λ posted. deal_hole_cards posted >>= λ dealt.
                set_first_actor_preflop dealt >>= λ ready. open_hand ready))
    from_deck deck full made =
        let c = clear_table deck g in
        let playing = reset-playing g.players in
        let size = length-seats_from not_busted 0 c.players in
        let few' = length-keep_if has_chips g.players in
        let e : ltb (length (keep_if not_busted c.players)) 2 ≡ false =
          ground (arith, playing, many) in
        let (h, run, d) =
          deal_in-Dealt c (reset-Holds g.players) (omega (arith, size, playing, many))
            (omega (arith, size, playing, few, few', full)) in
        (
          h,
          rw e run,
          record {
            chips = omega (arith, d.money.chips, reset-stacks g.players);
            pot = omega (arith, d.money.staked, reset-stakes g.players);
            ids = d.ids ∙ reset-ids g.players;
            held = Holds-HoldsTwo h.players d.held;
            cards = (deck, made, λ x. omega (arith, d.cards x, reset-held x g.players));
            deck = omega (arith, d.left, size, playing, full);
            board = d.board;
            phase = d.phase;
          },
        )
