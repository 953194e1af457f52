-- ===== src/Game/Board/Streets.antt =====
-- The cards of a phase: `_deal_flop`, `_deal_turn` and `_deal_river`.
use adk_poker.Base.{ℕ, zero, suc, ◌+◌, ◌≤◌, ◌≡◌, refl, [], ◌∷◌, ◌++◌, length, arith, length-append}
use adk_poker.Result.{Yields, bind-Yields}
use adk_poker.Cards.{Card}
use adk_poker.Cards.Deck.{copies}
use adk_poker.History.{Phase, preflop, flop, turn, river, showdown, finished}
use adk_poker.Game.State.{Game, Entry, flop_dealt, log_entry}
use adk_poker.Game.Board.{deal_community, burn_and_deal, log_board, deal_flop, deal_street}
use adk_poker.Game.Hand.Dealing.{Takes, deal_card-Takes, copies-append}

-- How many cards lie on the board in a phase.
abbrev pub OnBoard : Phase → ℕ → Type 0
OnBoard preflop n = n ≡ 0
OnBoard flop n = n ≡ 3
OnBoard turn n = n ≡ 4
OnBoard river n = n ≡ 5
OnBoard showdown n = n ≤ 5
OnBoard finished n = n ≤ 5

-- How many cards the rest of the hand takes from the deck.
abbrev pub needed : Phase → ℕ
needed preflop = 8
needed flop = 4
needed turn = 2
needed river = 0
needed showdown = 0
needed finished = 0

abbrev pub Stocked : Game → Type 0
Stocked g =
    OnBoard g.current_phase (length g.community_cards) × (needed g.current_phase ≤ length g.deck)

-- `n` cards have gone from the deck, `m` of them to the board.
pub record Turned (n m : ℕ) (g h : Game) : Type 0 where
  pub players : h.players ≡ g.players
  pub pot : h.pot ≡ g.pot
  pub phase : h.current_phase ≡ g.current_phase
  pub deck : length h.deck + n ≡ length g.deck
  pub board : length h.community_cards ≡ length g.community_cards + m
  pub kept :
      (x : Card)
      → copies x h.community_cards + copies x h.deck ≤ copies x g.community_cards + copies x g.deck

deal_community-Yields :
    (n : ℕ) (g : Game) → n ≤ length g.deck → Yields (Turned n n g) (deal_community n g)
unfolding deal_community
deal_community-Yields zero g h = (
  g,
  refl,
  record {
    players = refl;
    pot = refl;
    phase = refl;
    deck = omega arith;
    board = omega arith;
    kept = λ x. omega arith;
  },
)
deal_community-Yields (suc n) g h =
    bind-Yields (Takes g.deck) (Turned (suc n) (suc n) g) _ _ (deal_card-Takes g.deck (omega arith))
      λ r (k, moved).
        let (f, run, t) =
          deal_community-Yields n
            (record g { deck = r.1; community_cards = g.community_cards ++ r.0 ∷ [] })
            (omega (arith, k)) in
        (
          f,
          run,
          record {
            players = t.players;
            pot = t.pot;
            phase = t.phase;
            deck = omega (arith, t.deck, k);
            board = omega (arith, t.board, length-append g.community_cards (r.0 ∷ []));
            kept =
                λ x. omega (arith, t.kept x, moved x, copies-append x g.community_cards (r.0 ∷ []));
          },
        )

log_board-Turned :
    (n m : ℕ) (phase : Phase) (e : Entry) (g h : Game)
    → Turned n m g h
    → Turned n m g (log_board phase (log_entry e h))
unfolding log_board
log_board-Turned n m phase e g h t = record {
  players = ground (arith, t.players);
  pot = ground (arith, t.pot);
  phase = ground (arith, t.phase);
  deck = ground (arith, t.deck);
  board = ground (arith, t.board);
  kept = λ x. ground (arith, t.kept x);
}

pub deal_flop-Yields : (g : Game) → 4 ≤ length g.deck → Yields (Turned 4 3 g) (deal_flop g)
unfolding deal_flop burn_and_deal
deal_flop-Yields g h =
    bind-Yields (Turned 4 3 g) (Turned 4 3 g) _ _
      (bind-Yields (Takes g.deck) (Turned 4 3 g) _ _ (deal_card-Takes g.deck (omega arith))
        λ r (k, moved).
          let (f, run, t) = deal_community-Yields 3 (record g { deck = r.1 }) (omega (arith, k)) in
          (
            f,
            run,
            record {
              players = t.players;
              pot = t.pot;
              phase = t.phase;
              deck = omega (arith, t.deck, k);
              board = t.board;
              kept = λ x. omega (arith, t.kept x, moved x);
            },
          ))
      λ f t. (
        log_board flop (log_entry (flop_dealt f.community_cards) f),
        refl,
        log_board-Turned 4 3 flop (flop_dealt f.community_cards) g f t,
      )

pub deal_street-Yields :
    (entry : Card → Entry) (phase : Phase) (g : Game)
    → 2 ≤ length g.deck
    → Yields (Turned 2 1 g) (deal_street entry phase g)
unfolding deal_street
deal_street-Yields entry phase g h =
    bind-Yields (Takes g.deck) (Turned 2 1 g) _ _ (deal_card-Takes g.deck (omega arith))
      λ r (k, moved).
        bind-Yields (Takes r.1) (Turned 2 1 g) _ _ (deal_card-Takes r.1 (omega (arith, k)))
          λ s (l, moved').
            let f = record g { deck = s.1; community_cards = g.community_cards ++ s.0 ∷ [] } in
            (
              log_board phase (log_entry (entry s.0) f),
              refl,
              log_board-Turned 2 1 phase (entry s.0) g f (record {
                players = refl;
                pot = refl;
                phase = refl;
                deck = omega (arith, k, l);
                board = length-append g.community_cards (s.0 ∷ []);
                kept = λ x.
                    omega (arith, moved x, moved' x, copies-append x g.community_cards (s.0 ∷ []));
              }),
            )
