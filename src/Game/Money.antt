-- ===== src/Game/Money.antt =====
-- The chips through `process_player_action`: stacks, stakes and the pot.
use adk_poker.Base.{
  ℕ, ◌+◌, ◌-◌, Bool-cases, ◌≡◌, refl, arith, Option, none, some, ltb, leb, ◌==◌, inl, inr,
}
use mathlib.Core.Path.{subst}
use adk_poker.Base.Int.{ℤ, pos, ltb_ℤ}
use adk_poker.Player
use adk_poker.Player.{Player, bet, is_active}
use adk_poker.Game.State.{Game, Entry, find_player, put_player, stacks, stakes}
use adk_poker.Game.Action.{
  Action, fold, check, call, raise_to, all_in, other, perform, pay, raise_total, perform_call,
  perform_raise, perform_all_in, all_in_raise, finish, process_player_action,
}
use adk_poker.Game.Table.{sum_of-put_player}
use adk_poker.Game.Turn.{process_cases, acting_player-found}
use adk_poker.Game.Frame.{finish-SameTable}

-- What a bet takes from the stack is what it adds to both bets.
pub bet_moves :
    (amount : ℤ) (p : Player)
    → let (q, paid) = bet amount p in
      (q.chips + paid ≡ p.chips)
      × (q.current_bet ≡ p.current_bet + paid)
      × (q.total_bet_this_hand ≡ p.total_bet_this_hand + paid)
      × (q.id ≡ p.id)
unfolding bet
bet_moves amount p = ground arith

-- Between two states the chips on the table are the same, and the pot grew by what was staked.
pub record Conserves (g h : Game) : Type 0 where
  pub chips : stacks h.players + h.pot ≡ stacks g.players + g.pot
  pub staked : stakes h.players + g.pot ≡ stakes g.players + h.pot

abbrev pub AfterAction : (Game → Type 0) → Option (Game × Entry) → Type 0
AfterAction P none = Unit
AfterAction P (some (g, _)) = P g

-- Taking `paid` from a stack into the pot.
pay-Conserves :
    (g : Game) (p q : Player) (paid : ℕ)
    → find_player p.id g.players ≡ some p
    → q.id ≡ p.id
    → q.chips + paid ≡ p.chips
    → q.total_bet_this_hand ≡ p.total_bet_this_hand + paid
    → Conserves g (pay g q paid)
pay-Conserves g p q paid here same c t =
    let there : find_player q.id g.players ≡ some p = rw same here in
    record {
      chips = omega (arith, sum_of-put_player (λ r. r.chips) q.id q g.players p there);
      staked =
          omega (arith, sum_of-put_player (λ r. r.total_bet_this_hand) q.id q g.players p there);
    }

Conserves-refl : (g : Game) → Conserves g g
Conserves-refl g = record { chips = refl; staked = omega arith }

-- What a state shares with another.
Conserves-same :
    {f g h : Game} → h.players ≡ g.players → h.pot ≡ g.pot → Conserves f g → Conserves f h
Conserves-same e k c = record { chips = rw (e, k) c.chips; staked = rw (e, k) c.staked }

module _ (g : Game) (p : Player) (here : find_player p.id g.players ≡ some p) where
  bet-Conserves : (amount : ℤ) → Conserves g (pay g (bet amount p).0 (bet amount p).1)
  bet-Conserves amount =
      let (c, b, t, i) = bet_moves amount p in
      pay-Conserves g p (bet amount p).0 (bet amount p).1 here i c t

  perform_call-Conserves : AfterAction (Conserves g) (perform_call g p)
  unfolding perform_call
  perform_call-Conserves = elim (Bool-cases (leb g.current_bet p.current_bet)) [
    | inl e ↦ rw e (Conserves-refl g)
    | inr e ↦ rw e (elim (Bool-cases (ltb p.chips (g.current_bet - p.current_bet))) [
      | inl f ↦ rw f tt
      | inr f ↦ rw f (bet-Conserves (pos (g.current_bet - p.current_bet)))
    ])
  ]

  perform_raise-Conserves : (amount : ℤ) → AfterAction (Conserves g) (perform_raise g p amount)
  unfolding perform_raise
  perform_raise-Conserves amount =
      elim (Bool-cases (ltb_ℤ (pos p.chips) (raise_total g p amount))) [
        | inl f ↦ rw f tt
        | inr f ↦ rw f (Conserves-same refl refl (bet-Conserves (raise_total g p amount)))
      ]

  all_in_raise-Conserves : (h : Game) (q : Player) → Conserves g h → Conserves g (all_in_raise h q)
  unfolding all_in_raise
  all_in_raise-Conserves h q c = Conserves-same (ground arith) (ground arith) c

  perform_all_in-Conserves : AfterAction (Conserves g) (perform_all_in g p)
  unfolding perform_all_in
  perform_all_in-Conserves = elim (Bool-cases (p.chips == 0)) [
    | inl f ↦ rw f tt
    | inr f ↦
        let (c, b, t, i) = bet_moves (pos p.chips) p in
        let (q, paid) = bet (pos p.chips) p in
        rw f (
          all_in_raise-Conserves _ q
            (pay-Conserves g p (record q { status = Player.all_in }) paid here i c t))
  ]

  fold-Conserves : Conserves g (record g { players = put_player p.id (Player.fold p) g.players })
  unfolding Player.fold
  fold-Conserves = record {
    chips = omega (arith, sum_of-put_player (λ r. r.chips) p.id (Player.fold p) g.players p here);
    staked = omega (
      arith,
      sum_of-put_player (λ r. r.total_bet_this_hand) p.id (Player.fold p) g.players p here,
    );
  }

  perform-Conserves :
      (action : Action) (amount : ℤ) → AfterAction (Conserves g) (perform g p action amount)
  unfolding perform
  perform-Conserves fold amount = fold-Conserves
  perform-Conserves check amount = elim (Bool-cases (ltb p.current_bet g.current_bet)) [
    | inl e ↦ rw e tt
    | inr e ↦ rw e (Conserves-refl g)
  ]
  perform-Conserves call amount = perform_call-Conserves
  perform-Conserves raise_to amount = perform_raise-Conserves amount
  perform-Conserves all_in amount = perform_all_in-Conserves
  perform-Conserves other amount = tt

finish-Conserves :
    (g : Game) (action : Action) (amount : ℤ) (id : ℕ) (done : Option (Game × Entry))
    (d : Game × Entry)
    → AfterAction (Conserves g) done
    → done ≡ some d
    → Conserves g (finish action amount id d)
finish-Conserves g action amount id none d c e = cc
finish-Conserves g action amount id (some (h, x)) (h', x') c e =
    let s = finish-SameTable action amount id h' x' in
    let k : h ≡ h' = cc in Conserves-same s.players s.pot (subst (Conserves g) k c)

-- No call of process_player_action makes or loses a chip, whoever calls it with whatever action
-- and amount: the stacks and the pot keep their sum, and the pot grows by just what is staked.
pub process-Conserves :
    (id : ℕ) (action : Action) (amount : ℤ) (g : Game)
    → Conserves g (process_player_action id action amount g).0
process-Conserves id action amount g =
    process_cases (λ r. Conserves g r.0) id action amount g (Conserves-refl g)
      λ p d e f.
        finish-Conserves g action amount id (perform g p action amount) d
          (perform-Conserves g p (acting_player-found id g p e) action amount) f
