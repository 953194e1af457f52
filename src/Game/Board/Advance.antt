-- ===== src/Game/Board/Advance.antt =====
-- `PokerGame.advance_to_next_phase` as a whole, with `_start_new_betting_round`.
use adk_poker.Base.{
  ℕ, ◌+◌, ◌≤◌, ◌≡◌, refl, ◌∙◌, sym, ap, ◌⊎◌, Bool, true, false, not, length, keep_if, arith, leb,
  inl, inr, if◌then◌else◌,
}
use mathlib.Core.Path.{subst}
use adk_poker.Result.{Result, ok, Yields, bind-Yields, ◌>>=◌}
use adk_poker.History.{Phase, preflop, flop, turn, river, showdown, finished}
use adk_poker.Game.State.{Game, turn_dealt, river_dealt, in_hand}
use adk_poker.Game.Round.{start_new_betting_round}
use adk_poker.Game.Board.{next_street, advance_to_next_phase}
use adk_poker.Game.Board.Streets.{
  OnBoard, needed, Stocked, Turned, deal_flop-Yields, deal_street-Yields,
}
use adk_poker.Game.Board.NewRound.{
  SameStakes, SameStakes-refl, SameStakes-trans, start_new_betting_round-Restarted,
}

-- The phase that a complete round leads to.
abbrev pub following : Phase → Phase
following preflop = flop
following flop = turn
following turn = river
following river = showdown
following showdown = showdown
following finished = finished

abbrev pub phase_after : Game → Phase
phase_after g =
    if leb (length (keep_if in_hand g.players)) 1 then showdown else following g.current_phase

-- The phases from which no street follows.
abbrev pub IsLast : Phase → Type 0
IsLast phase = (phase ≡ showdown) ⊎ (phase ≡ finished)

-- Refused and unchanged, which needs an open round or a last phase; or accepted after a complete
-- round, and in the phase.
abbrev pub Verdict : Game → Phase → Game × Bool → Type 0
Verdict g to r =
    ((r.1 ≡ false) × (r.0 ≡ g) × ((g.betting_round_complete ≡ false) ⊎ IsLast g.current_phase))
    ⊎ ((r.1 ≡ true) × (r.0.current_phase ≡ to) × (g.betting_round_complete ≡ true))

abbrev pub Moved : Game → Phase → Game × Bool → Type 0
Moved g to r = SameStakes g r.0 × Stocked r.0 × Verdict g to r

-- A street: its cards, and a new round.
new_street-Moved :
    (g : Game) (to : Phase) (n m : ℕ) (cards : Result Game)
    → Yields (Turned n m (record g { current_phase = to })) cards
    → OnBoard to (length g.community_cards + m)
    → needed to + n ≤ length g.deck
    → g.betting_round_complete ≡ true
    → Yields (Moved g to) (cards >>= λ h. ok (start_new_betting_round h, true))
new_street-Moved g to n m cards dealt board left closed =
    bind-Yields (Turned n m (record g { current_phase = to })) (Moved g to) _ _ dealt λ h t.
      let h' = start_new_betting_round h in
      let r = start_new_betting_round-Restarted h in
      let phase = r.phase ∙ t.phase in
      let size : length h'.community_cards ≡ length g.community_cards + m =
        ap length r.board ∙ t.board in
      let deck = ap length r.deck in
      (
        (h', true),
        refl,
        (
          SameStakes-trans g h h' (SameStakes-refl g h t.players t.pot t.kept) r.same,
          (
            subst (λ p. OnBoard p (length h'.community_cards)) (sym phase)
                (subst (OnBoard to) (sym size) board),
            subst (λ p. needed p ≤ length h'.deck) (sym phase) (omega (arith, t.deck, left, deck)),
          ),
          inr (refl, phase, closed),
        ),
      )

next_street-Moved :
    (phase : Phase) (g : Game)
    → g.current_phase ≡ phase
    → OnBoard phase (length g.community_cards)
    → needed phase ≤ length g.deck
    → g.betting_round_complete ≡ true
    → Yields (Moved g (following phase)) (next_street phase g)
unfolding next_street
next_street-Moved preflop g e b k c =
    new_street-Moved g flop 4 3 _
      (deal_flop-Yields (record g { current_phase = flop }) (omega arith)) (omega arith)
      (omega arith) c
next_street-Moved flop g e b k c =
    new_street-Moved g turn 2 1 _
      (deal_street-Yields turn_dealt turn (record g { current_phase = turn }) (omega arith))
      (omega arith) (omega arith) c
next_street-Moved turn g e b k c =
    new_street-Moved g river 2 1 _
      (deal_street-Yields river_dealt river (record g { current_phase = river }) (omega arith))
      (omega arith) (omega arith) c
next_street-Moved river g e b k c = (
  (record g { current_phase = showdown }, true),
  refl,
  (
    SameStakes-refl g (record g { current_phase = showdown }) refl refl (λ x. omega arith),
    (omega arith, omega arith),
    inr (refl, refl, c),
  ),
)
next_street-Moved showdown g e b k c = (
  (g, false),
  refl,
  (
    SameStakes-refl g g refl refl (λ x. omega arith),
    (rw e b, rw e k),
    inl (refl, refl, inr (inl e)),
  ),
)
next_street-Moved finished g e b k c = (
  (g, false),
  refl,
  (
    SameStakes-refl g g refl refl (λ x. omega arith),
    (rw e b, rw e k),
    inl (refl, refl, inr (inr e)),
  ),
)

OnBoard-le : (phase : Phase) (n : ℕ) → OnBoard phase n → n ≤ 5
OnBoard-le preflop n h = omega arith
OnBoard-le flop n h = omega arith
OnBoard-le turn n h = omega arith
OnBoard-le river n h = omega arith
OnBoard-le showdown n h = h
OnBoard-le finished n h = h

-- While the board and the deck have the cards of the phase, advancing never raises, and the board
-- and the deck have those of the phase after; no card comes to the board and the deck that was in
-- neither. Chips, stakes, ids, hole cards and the pot stay. Either the call is refused and changes
-- nothing, and the round is not complete or the phase is the showdown or later; or the round was
-- complete, and the phase is the next one, which is the showdown when at most one player is left
-- in the hand.
pub advance_to_next_phase-Moved :
    (g : Game) → Stocked g → Yields (Moved g (phase_after g)) (advance_to_next_phase g)
unfolding advance_to_next_phase
advance_to_next_phase-Moved g (b, k) =
    at_end g.betting_round_complete (leb (length (keep_if in_hand g.players)) 1) refl
  where
    at_end :
        (complete alone : Bool)
        → g.betting_round_complete ≡ complete
        → Yields (Moved g (if alone then showdown else following g.current_phase)) (
            if not complete
            then ok (g, false)
            else if alone
            then ok (record g { current_phase = showdown }, true)
            else next_street g.current_phase g)
    at_end false alone e = (
      (g, false),
      refl,
      (SameStakes-refl g g refl refl (λ x. omega arith), (b, k), inl (refl, refl, inl e)),
    )
    at_end true true e = (
      (record g { current_phase = showdown }, true),
      refl,
      (
        SameStakes-refl g (record g { current_phase = showdown }) refl refl (λ x. omega arith),
        (OnBoard-le g.current_phase (length g.community_cards) b, omega arith),
        inr (refl, refl, e),
      ),
    )
    at_end true false e = next_street-Moved g.current_phase g refl b k e
