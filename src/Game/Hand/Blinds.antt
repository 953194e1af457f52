-- ===== src/Game/Hand/Blinds.antt =====
-- `PokerGame._post_blinds`.
use native.Mathlib.Nat.{mod-lt}
use adk_poker.Base.{
  ℕ, ◌+◌, ◌-◌, ◌%◌, ◌≤◌, ◌<◌, ◌≡◌, refl, ◌∙◌, sym, ap, true, false, List, length, get_elem?, set,
  contains, arith, ltb, ◌==◌, Bool-cases, inl, inr, some,
}
use adk_poker.Base.Int.{ℤ, pos}
use mathlib.Core.Path.{subst}
use adk_poker.Result.{Yields}
use adk_poker.Cards.Deck.{copies}
use adk_poker.Player.{Player, bet}
use adk_poker.History.{Phase, ActionType, preflop}
use adk_poker.Game.State.{
  Game, Entry, posted_small_blind, posted_big_blind, seats, not_busted, log_entry, log_action,
}
use adk_poker.Game.Frame.{log_action-SameTable}
use adk_poker.Game.Money.{bet_moves}
use adk_poker.Game.Hand.{post_blind, flag_small, flag_big, blind_seats, post_blinds}
use adk_poker.Game.Hand.Seats.{
  at-Yields, index_from-Yields, All-contains_self, Passes, seats_from-Passes, contains-All,
  sum_of-set, ids_of-set, seats_from-set, All-set, All-get_elem,
}
use adk_poker.Game.Hand.Button.{Opening, Opening-same, Holds}

-- A bet leaves the cards, and whether the player is in play.
bet_frame :
    (amount : ℕ) (p : Player)
    → not_busted p ≡ true
    → ((bet (pos amount) p).0.hole_cards ≡ p.hole_cards)
      × (not_busted (bet (pos amount) p).0 ≡ true)
unfolding bet
bet_frame amount p h = ground arith

log_action-dealer :
    (phase : Phase) (id : ℕ) (action : ActionType) (amount : ℤ) (g : Game)
    → (log_action phase id action amount g).dealer_button ≡ g.dealer_button
unfolding log_action
log_action-dealer phase id action amount g = ground arith

log_action-blind :
    (phase : Phase) (id : ℕ) (action : ActionType) (amount : ℤ) (g : Game)
    → (log_action phase id action amount g).big_blind ≡ g.big_blind
unfolding log_action
log_action-blind phase id action amount g = ground arith

-- One blind, of a seat in play.
post_blind-Yields :
    (flag : Player → Player) (entry : ℕ → ℕ → Entry) (action : ActionType) (seat amount : ℕ)
    (c g : Game)
    → ((p : Player)
        → ((flag p).id ≡ p.id)
          × ((flag p).chips ≡ p.chips)
          × ((flag p).total_bet_this_hand ≡ p.total_bet_this_hand)
          × ((flag p).hole_cards ≡ p.hole_cards)
          × ((flag p).status ≡ p.status))
    → Opening 0 c g
    → Passes not_busted g.players 0 seat
    → Yields
        (λ r.
          Opening 0 c r.0 × (r.0.dealer_button ≡ g.dealer_button) × (r.0.big_blind ≡ g.big_blind))
        (post_blind flag entry action seat amount g)
unfolding post_blind
post_blind-Yields flag entry action seat amount c g same o (k, e, (p, found, playing)) =
    let (fi, fc, ft, fh, fs) = same p in
    let same_seat : k ≡ seat = omega (arith, e) in
    let there : get_elem? g.players seat ≡ some p =
      subst (λ i. get_elem? g.players i ≡ some p) same_seat found in
    let (bc, bb, bt, bi) = bet_moves (pos amount) (flag p) in
    let flagged : not_busted (flag p) ≡ true = rw fs playing in
    let (bh, bp) = bet_frame amount (flag p) flagged in
    let q = (bet (pos amount) (flag p)).0 in
    let paid = (bet (pos amount) (flag p)).1 in
    let h =
      log_entry (entry seat paid)
        (record g { players = set g.players seat q; pot = g.pot + paid }) in
    let s = log_action-SameTable preflop q.id action (pos paid) h in
    let none_yet = All-get_elem (Holds 0) g.players seat p o.held there playing in
    (
      (log_action preflop q.id action (pos paid) h, paid),
      rw there refl,
      (
        Opening-same {g = h} s.players s.pot s.deck s.community_cards s.current_phase (record {
          money = record {
            chips =
                omega (
                  arith,
                  o.money.chips,
                  sum_of-set (λ r. r.chips) g.players seat p q there,
                  bc,
                  fc,
                );
            staked = omega (
              arith,
              o.money.staked,
              sum_of-set (λ r. r.total_bet_this_hand) g.players seat p q there,
              bt,
              ft,
            );
          };
          ids = ids_of-set g.players seat p q there (bi ∙ fi) ∙ o.ids;
          places =
              seats_from-set not_busted 0 g.players seat p q there (bp ∙ sym playing) ∙ o.places;
          held = All-set (Holds 0) g.players seat q o.held (λ _. ap length (bh ∙ fh) ∙ none_yet);
          cards = λ x. omega (
            arith,
            o.cards x,
            sum_of-set (λ r. copies x r.hole_cards) g.players seat p q there,
            ap (copies x) (bh ∙ fh),
          );
          deck = o.deck;
          board = o.board;
          phase = o.phase;
        }),
        log_action-dealer preflop q.id action (pos paid) h,
        log_action-blind preflop q.id action (pos paid) h,
      ),
    )

-- The two blinds sit at seats in play.
blind_seats-Yields :
    (dealer position : ℕ) (active : List ℕ)
    → contains dealer active ≡ true
    → position < length active
    → 2 ≤ length active
    → Yields
        (λ r. (contains r.0 active ≡ true) × (contains r.1 active ≡ true))
        (blind_seats dealer position active)
unfolding blind_seats
blind_seats-Yields dealer position active d p many = elim (Bool-cases (length active == 2)) [
  | inl e ↦
      let (x, run, (_, k)) =
        at-Yields _ active (1 - position) (ground arith) (All-contains_self active) in
      ((dealer, x), rw e (rw run refl), (d, k))
  | inr e ↦
      let (x, run, (_, k)) =
        at-Yields _ active ((position + 1) % length active) (mod-lt (position + 1) (omega arith))
          (All-contains_self active) in
      let (y, run', (_, l)) =
        at-Yields _ active ((position + 2) % length active) (mod-lt (position + 2) (omega arith))
          (All-contains_self active) in
      ((x, y), rw e (rw run (rw run' refl)), (k, l))
]

pub post_blinds-Yields :
    (c g : Game)
    → Opening 0 c g
    → contains g.dealer_button (seats not_busted g) ≡ true
    → 2 ≤ length (seats not_busted g)
    → Yields (λ h. Opening 0 c h × (h.dealer_button ≡ g.dealer_button)) (post_blinds g)
unfolding post_blinds
post_blinds-Yields c g o d many =
    let e : ltb (length (seats not_busted g)) 2 ≡ false = ground arith in
    let (j, run, (_, low)) = index_from-Yields 0 g.dealer_button (seats not_busted g) d in
    let ((small, big), run1, (k, l)) =
      blind_seats-Yields g.dealer_button j (seats not_busted g) d (omega arith) many in
    let passes = seats_from-Passes not_busted 0 g.players in
    let (r, run2, (o1, d1, b1)) =
      post_blind-Yields flag_small posted_small_blind ActionType.small_blind small g.small_blind c g
        (λ p. (refl, refl, refl, refl, refl)) o
        (contains-All _ small (seats not_busted g) k passes) in
    let same : seats not_busted r.0 ≡ seats not_busted g = o1.places ∙ sym o.places in
    let (r', run3, (o2, d2, b2)) =
      post_blind-Yields flag_big posted_big_blind ActionType.big_blind big r.0.big_blind c r.0
        (λ p. (refl, refl, refl, refl, refl)) o1
        (contains-All _ big (seats not_busted r.0) (rw same l)
          (seats_from-Passes not_busted 0 r.0.players)) in
    (
      record r'.0 { current_bet = r'.1; last_raiser_index = some big },
      rw e (rw run (rw run1 (rw run2 (rw run3 refl)))),
      (Opening-same {g = r'.0} refl refl refl refl refl o2, d2 ∙ d1),
    )
