-- ===== src/Game/Hand/Dealing.antt =====
-- `Deck.deal_card` and `PokerGame._deal_hole_cards`.
use adk_poker.Base.{
  ℕ, suc, ◌+◌, ◌*◌, ◌≤◌, ◌<◌, ◌≡◌, refl, ◌∙◌, ap, true, false, List, [], ◌∷◌, ◌++◌, length, keep_if,
  All, arith, Bool-cases, inl, inr, length-append,
}
use adk_poker.Result.{ok, Yields}
use mathlib.Core.Path.{subst}
use adk_poker.Cards.{Card, deal_card}
use adk_poker.Cards.Deck.{copies, deal_card-copies}
use adk_poker.Player.{Player, add_hole_card}
use adk_poker.Game.Table.{held_copies}
use adk_poker.Game.State.{Game, seats_from, seats, not_busted, stacks, stakes}
use adk_poker.Game.Money.{Conserves}
use adk_poker.Game.Hand.{deal_round, deal_hole_cards}
use adk_poker.Game.Hand.Seats.{length-seats_from}
use adk_poker.Game.Hand.Button.{Opening, Holds}
use adk_poker.Game.Showdown.Shown.{ids_of}

-- A deck that is not empty deals a card, and is shorter by it.
deal_card-Yields :
    (deck : List Card)
    → 0 < length deck
    → Yields (λ r. length r.1 + 1 ≡ length deck) (deal_card deck)
unfolding deal_card
deal_card-Yields [] h = absurd (omega arith)
deal_card-Yields (c ∷ []) h = ((c, []), refl, refl)
deal_card-Yields (c ∷ d ∷ cards) h =
    let (r, run, k) = deal_card-Yields (d ∷ cards) (omega arith) in
    ((r.0, c ∷ r.1), rw run refl, omega (arith, k))

-- The card that is dealt leaves the deck, and all others stay.
abbrev pub Takes : List Card → Card × List Card → Type 0
Takes deck r =
    (length r.1 + 1 ≡ length deck)
    × ((x : Card) → copies x r.1 + copies x (r.0 ∷ []) ≡ copies x deck)

pub deal_card-Takes : (deck : List Card) → 0 < length deck → Yields (Takes deck) (deal_card deck)
deal_card-Takes deck h =
    let (r, run, k) = deal_card-Yields deck h in
    let (r', run', moved) = deal_card-copies deck h in
    let same : r' ≡ r = cc in
    (
      r,
      run,
      (k, subst (λ t. (x : Card) → copies x t.1 + copies x (t.0 ∷ []) ≡ copies x deck) same moved),
    )

-- A round of cards has gone out.
pub record RoundDealt (n : ℕ) (ps : List Player) (deck : List Card) (r : List Player × List Card)
    : Type 0 where
  pub held : All (Holds (n + 1)) r.0
  pub cards : (x : Card) → held_copies x r.0 + copies x r.1 ≡ held_copies x ps + copies x deck
  pub ids : ids_of r.0 ≡ ids_of ps
  pub chips : stacks r.0 ≡ stacks ps
  pub staked : stakes r.0 ≡ stakes ps
  pub places : (j : ℕ) → seats_from not_busted j r.0 ≡ seats_from not_busted j ps
  pub left : length r.1 + length (keep_if not_busted ps) ≡ length deck

pub copies-append : (x : Card) (xs ys : List Card) → copies x (xs ++ ys) ≡ copies x xs + copies x ys
copies-append x [] ys = omega arith
copies-append x (c ∷ xs) ys = omega (arith, copies-append x xs ys)

add_hole_card-Yields :
    (card : Card) (p : Player)
    → length p.hole_cards < 2
    → add_hole_card card p ≡ ok (record p { hole_cards = p.hole_cards ++ card ∷ [] })
unfolding add_hole_card
add_hole_card-Yields card p h = ground arith

-- The player at the front is in play.
deal_round-dealt :
    (n : ℕ) (p : Player) (ps : List Player) (deck : List Card) (r : Card × List Card)
    (s : List Player × List Card)
    → not_busted p ≡ true
    → length p.hole_cards ≡ n
    → n < 2
    → deal_card deck ≡ ok r
    → length r.1 + 1 ≡ length deck
    → ((x : Card) → copies x r.1 + copies x (r.0 ∷ []) ≡ copies x deck)
    → deal_round ps r.1 ≡ ok s
    → RoundDealt n ps r.1 s
    → Yields (RoundDealt n (p ∷ ps) deck) (deal_round (p ∷ ps) deck)
unfolding deal_round seats_from
deal_round-dealt n p ps deck r s e size h run k same run' o = (
  (record p { hole_cards = p.hole_cards ++ r.0 ∷ [] } ∷ s.0, s.1),
  rw (e, run) (rw (add_hole_card-Yields r.0 p (omega arith)) (rw run' refl)),
  record {
    held = ((λ _. omega (arith, length-append p.hole_cards (r.0 ∷ []), size)), o.held);
    cards = λ x. omega (arith, copies-append x p.hole_cards (r.0 ∷ []), same x, o.cards x);
    ids = ap (◌∷◌ p.id) o.ids;
    chips = omega (arith, o.chips);
    staked = omega (arith, o.staked);
    places = λ j. rw (e, o.places (suc j)) refl;
    left = rw e (omega (arith, o.left, k));
  },
)

-- The player at the front is not.
deal_round-skipped :
    (n : ℕ) (p : Player) (ps : List Player) (deck : List Card) (s : List Player × List Card)
    → not_busted p ≡ false
    → deal_round ps deck ≡ ok s
    → RoundDealt n ps deck s
    → Yields (RoundDealt n (p ∷ ps) deck) (deal_round (p ∷ ps) deck)
unfolding deal_round seats_from
deal_round-skipped n p ps deck s e run o = (
  (p ∷ s.0, s.1),
  rw e (rw run refl),
  record {
    held = ((λ t. cc), o.held);
    cards = λ x. omega (arith, o.cards x);
    ids = ap (◌∷◌ p.id) o.ids;
    chips = omega (arith, o.chips);
    staked = omega (arith, o.staked);
    places = λ j. rw (e, o.places (suc j)) refl;
    left = rw e o.left;
  },
)

pub deal_round-Yields :
    (n : ℕ) (ps : List Player) (deck : List Card)
    → n < 2
    → All (Holds n) ps
    → length (keep_if not_busted ps) ≤ length deck
    → Yields (RoundDealt n ps deck) (deal_round ps deck)
unfolding deal_round
deal_round-Yields n [] deck h a l = (
  ([], deck),
  refl,
  record {
    held = tt;
    cards = λ x. refl;
    ids = refl;
    chips = refl;
    staked = refl;
    places = λ j. refl;
    left = omega arith;
  },
)
deal_round-Yields n (p ∷ ps) deck h a l = elim (Bool-cases (not_busted p)) [
  | inl e ↦
      let enough : length (keep_if not_busted ps) + 1 ≤ length deck = ground arith in
      let (r, run, (k, kept)) = deal_card-Takes deck (omega arith) in
      let (s, run', o) = deal_round-Yields n ps r.1 h a.1 (omega (arith, k)) in
      deal_round-dealt n p ps deck r s e (a.0 e) h run k kept run' o
  | inr e ↦
      let enough : length (keep_if not_busted ps) ≤ length deck = ground arith in
      let (s, run, o) = deal_round-Yields n ps deck h a.1 enough in
      deal_round-skipped n p ps deck s e run o
]

-- All that dealing leaves as the opening has it, and two cards for everybody in play.
pub record Dealt (c h : Game) : Type 0 where
  pub money : Conserves c h
  pub ids : ids_of h.players ≡ ids_of c.players
  pub places : seats not_busted h ≡ seats not_busted c
  pub held : All (Holds 2) h.players
  pub cards :
      (x : Card)
      → held_copies x h.players + copies x h.deck ≡ held_copies x c.players + copies x c.deck
  pub left : length h.deck + 2 * length (seats not_busted c) ≡ length c.deck
  pub board : h.community_cards ≡ c.community_cards
  pub phase : h.current_phase ≡ c.current_phase

pub deal_hole_cards-Yields :
    (c g : Game)
    → Opening 0 c g
    → 2 * length (seats not_busted c) ≤ length c.deck
    → Yields (λ h. Dealt c h × (h.dealer_button ≡ g.dealer_button)) (deal_hole_cards g)
unfolding deal_hole_cards
deal_hole_cards-Yields c g o enough =
    let size = length-seats_from not_busted 0 g.players in
    let places = ap length o.places in
    let decks = ap length o.deck in
    let (r, run, d) =
      deal_round-Yields 0 g.players g.deck (omega arith) o.held
        (omega (arith, size, places, decks, enough)) in
    let size' = length-seats_from not_busted 0 r.0 in
    let places' = ap length (d.places 0) in
    let left = d.left in
    let (s, run', d') =
      deal_round-Yields 1 r.0 r.1 (omega arith) d.held
        (omega (arith, size, size', places, places', decks, enough, left)) in
    (
      record g { players = s.0; deck = s.1 },
      rw (run, run') refl,
      (
        record {
          money = record {
            chips = omega (arith, o.money.chips, d.chips, d'.chips);
            staked = omega (arith, o.money.staked, d.staked, d'.staked);
          };
          ids = d'.ids ∙ d.ids ∙ o.ids;
          places = d'.places 0 ∙ d.places 0 ∙ o.places;
          held = d'.held;
          cards = λ x. omega (arith, d'.cards x, d.cards x, o.cards x, ap (copies x) o.deck);
          board = o.board;
          phase = o.phase;
          left = omega (arith, size, size', places, places', decks, left, d'.left);
        },
        refl,
      ),
    )
