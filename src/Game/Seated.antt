-- ===== src/Game/Seated.antt =====
-- Ids and hole cards through `process_player_action`.
use adk_poker.Base.{
  ℕ, ◌-◌, ◌≡◌, refl, ap, ◌∙◌, true, List, [], ◌∷◌, All, length, arith, Bool-cases, inl, inr, Option,
  none, some, ltb, leb, ◌==◌,
}
use adk_poker.Base.Int.{ℤ, pos, ltb_ℤ}
use mathlib.Core.Path.{subst}
use adk_poker.Cards.{Card}
use adk_poker.Cards.Deck.{copies}
use adk_poker.Player
use adk_poker.Player.{Player, bet, is_active}
use adk_poker.Game.State.{Game, Entry, find_player, put_player, in_hand}
use adk_poker.Game.Action.{
  Action, fold, check, call, raise_to, all_in, other, pay, perform, perform_call, perform_raise,
  perform_all_in, all_in_raise, raise_total, finish, process_player_action,
}
use adk_poker.Game.Table.{All-put_player, All-find_player, held_copies, sum_of-put_player}
use adk_poker.Game.Turn.{process_cases, acting_player-found, acting_player-some}
use adk_poker.Game.Frame.{finish-SameTable}
use adk_poker.Game.Money.{AfterAction}
use adk_poker.Game.Showdown.Shown.{ids_of}

abbrev pub HoldsTwo : Player → Type 0
HoldsTwo p = in_hand p ≡ true → length p.hole_cards ≡ 2

pub ids_of-put_player :
    (id : ℕ) (q : Player) (ps : List Player) → q.id ≡ id → ids_of (put_player id q ps) ≡ ids_of ps
unfolding put_player
ids_of-put_player id q [] e = refl
ids_of-put_player id q (p ∷ ps) e = ground (arith, ids_of-put_player id q ps e)

-- The two states have one board, one deck and one phase.
pub record SameBoard (g h : Game) : Type 0 where
  pub deck : h.deck ≡ g.deck
  pub board : h.community_cards ≡ g.community_cards
  pub phase : h.current_phase ≡ g.current_phase

-- Between two states the ids are the same, and players in the hand still hold two cards.
pub record Seated (g h : Game) : Type 0 where
  pub ids : ids_of h.players ≡ ids_of g.players
  pub cards : (x : Card) → held_copies x h.players ≡ held_copies x g.players
  pub held : All HoldsTwo g.players → All HoldsTwo h.players
  pub same : SameBoard g h

Seated-same : {f g h : Game} → h.players ≡ g.players → SameBoard g h → Seated f g → Seated f h
Seated-same e b s = record {
  ids = rw e s.ids;
  cards = rw e s.cards;
  held = λ a. rw e (s.held a);
  same = record {
    deck = b.deck ∙ s.same.deck;
    board = b.board ∙ s.same.board;
    phase = b.phase ∙ s.same.phase;
  };
}

SameBoard-refl : (g : Game) → SameBoard g g
SameBoard-refl g = record { deck = refl; board = refl; phase = refl }

Seated-refl : (g : Game) → Seated g g
Seated-refl g = record { ids = refl; cards = λ x. refl; held = λ a. a; same = SameBoard-refl g }

module _ (g : Game) (p : Player) (here : find_player p.id g.players ≡ some p)
    (active : p.status ≡ Player.active) where
  -- A write of the same player with other numbers.
  put-Seated :
      (h : Game) (q : Player)
      → h.players ≡ put_player p.id q g.players
      → q.id ≡ p.id
      → q.hole_cards ≡ p.hole_cards
      → SameBoard g h
      → Seated g h
  put-Seated h q e i cards b = record {
    same = b;
    ids = rw e (ids_of-put_player p.id q g.players i);
    cards = λ x. rw e (
        omega (
          arith,
          sum_of-put_player (λ r. copies x r.hole_cards) p.id q g.players p here,
          ap (copies x) cards,
        ));
    held = λ a.
        let two : length p.hole_cards ≡ 2 =
          All-find_player HoldsTwo p.id g.players p a here (rw active refl) in
        rw e (All-put_player HoldsTwo p.id q g.players a (λ _. ap length cards ∙ two));
  }

  pay-Seated :
      (q : Player) (paid : ℕ) → q.id ≡ p.id → q.hole_cards ≡ p.hole_cards → Seated g (pay g q paid)
  pay-Seated q paid i cards =
      put-Seated (pay g q paid) q (ap (λ k. put_player k q g.players) i) i cards
        (record { deck = refl; board = refl; phase = refl })

  all_in_raise-Seated : (h : Game) (q : Player) → Seated g h → Seated g (all_in_raise h q)
  unfolding all_in_raise
  all_in_raise-Seated h q s =
      Seated-same (ground arith)
        (record { deck = ground arith; board = ground arith; phase = ground arith }) s

  bet-same :
      (amount : ℤ) → ((bet amount p).0.id ≡ p.id) × ((bet amount p).0.hole_cards ≡ p.hole_cards)
  unfolding bet
  bet-same amount = ground arith

  perform-Seated :
      (action : Action) (amount : ℤ) → AfterAction (Seated g) (perform g p action amount)
  unfolding perform perform_call perform_raise perform_all_in Player.fold
  perform-Seated fold amount =
      put-Seated _ (Player.fold p) refl refl refl
        (record { deck = refl; board = refl; phase = refl })
  perform-Seated check amount = elim (Bool-cases (ltb p.current_bet g.current_bet)) [
    | inl e ↦ rw e tt
    | inr e ↦ rw e (Seated-refl g)
  ]
  perform-Seated call amount = elim (Bool-cases (leb g.current_bet p.current_bet)) [
    | inl e ↦ rw e (Seated-refl g)
    | inr e ↦ rw e (elim (Bool-cases (ltb p.chips (g.current_bet - p.current_bet))) [
      | inl f ↦ rw f tt
      | inr f ↦
          let (i, c) = bet-same (pos (g.current_bet - p.current_bet)) in
          rw f (pay-Seated (bet (pos (g.current_bet - p.current_bet)) p).0 _ i c)
    ])
  ]
  perform-Seated raise_to amount =
      elim (Bool-cases (ltb_ℤ (pos p.chips) (raise_total g p amount))) [
        | inl f ↦ rw f tt
        | inr f ↦
            let (i, c) = bet-same (raise_total g p amount) in
            rw f (
              Seated-same refl (record { deck = refl; board = refl; phase = refl })
                (pay-Seated (bet (raise_total g p amount) p).0 (bet (raise_total g p amount) p).1 i
                  c))
      ]
  perform-Seated all_in amount = elim (Bool-cases (p.chips == 0)) [
    | inl f ↦ rw f tt
    | inr f ↦
        let (i, c) = bet-same (pos p.chips) in
        let (q, paid) = bet (pos p.chips) p in
        rw f (all_in_raise-Seated _ q (pay-Seated (record q { status = Player.all_in }) paid i c))
  ]
  perform-Seated other amount = tt

finish-Seated :
    (g : Game) (action : Action) (amount : ℤ) (id : ℕ) (done : Option (Game × Entry))
    (d : Game × Entry)
    → AfterAction (Seated g) done
    → done ≡ some d
    → Seated g (finish action amount id d)
finish-Seated g action amount id none d c e = cc
finish-Seated g action amount id (some (h, x)) (h', x') c e =
    let s = finish-SameTable action amount id h' x' in
    let k : h ≡ h' = cc in
    Seated-same s.players
      (record { deck = s.deck; board = s.community_cards; phase = s.current_phase })
      (subst (Seated g) k c)

pub process-Seated :
    (id : ℕ) (action : Action) (amount : ℤ) (g : Game)
    → Seated g (process_player_action id action amount g).0
process-Seated id action amount g =
    process_cases (λ r. Seated g r.0) id action amount g (Seated-refl g)
      λ p d e f.
        let (turn, i, found, active) = acting_player-some id g p e in
        finish-Seated g action amount id (perform g p action amount) d
          (perform-Seated g p (acting_player-found id g p e) active action amount) f
