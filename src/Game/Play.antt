-- ===== src/Game/Play.antt =====
-- A whole hand: `start_new_hand`, then turns and phases in any order, whoever takes them and
-- whether or not they are accepted, then `conduct_showdown`.
use mathlib.Core.Path.{subst}
use adk_poker.Base.{
  ℕ, ◌+◌, ◌≤◌, ◌≡◌, ◌≢◌, ◌∙◌, sym, ap, Bool, List, [], ◌∷◌, length, keep_if, All, arith, Bool-cases,
  inl, inr, length-append,
}
use adk_poker.Base.Int.{ℤ}
use adk_poker.Result.{ok}
use adk_poker.Cards.{Card}
use adk_poker.Player.{Player}
use adk_poker.Game.State.{Game, ShowdownResult, in_hand, stacks, stakes}
use adk_poker.Game.Action.{Action, process_player_action}
use adk_poker.Game.Money.{process-Conserves}
use adk_poker.Game.Seated.{HoldsTwo, SameBoard, process-Seated}
use adk_poker.Game.Hand.{start_new_hand}
use adk_poker.Game.Hand.Start.{has_chips, length-keep_if, Started, start_new_hand-Started}
use adk_poker.Game.Board.{advance_to_next_phase}
use adk_poker.Game.Board.Streets.{Stocked, OnBoard, needed}
use adk_poker.Game.Board.Advance.{advance_to_next_phase-Moved}
use adk_poker.Game.Showdown.{conduct_showdown}
use adk_poker.Game.Showdown.Layers.{DistinctIds}
use adk_poker.Game.Showdown.Shown.{HaveCards, ids_of}
use adk_poker.Game.Showdown.Payment.{conduct_showdown-Conserves}

-- One call during a hand.
pub data Step : Game → Game → Type 0 where
  act :
      {g : Game} (id : ℕ) (action : Action) (amount : ℤ)
      → Step g (process_player_action id action amount g).0
  advance : {g h : Game} {b : Bool} → advance_to_next_phase g ≡ ok (h, b) → Step g h

-- Any number of calls.
pub data Steps : Game → Game → Type 0 where
  done : {g : Game} → Steps g g
  next : {f g h : Game} → Steps f g → Step g h → Steps f h

-- The state in the midst of a hand that was started with the players `ps`.
pub record Sound (ps : List Player) (g : Game) : Type 0 where
  pub chips : stacks g.players + g.pot ≡ stacks ps
  pub pot : g.pot ≡ stakes g.players
  pub ids : ids_of g.players ≡ ids_of ps
  pub held : All HoldsTwo g.players
  pub stocked : Stocked g

Stocked-same : (g h : Game) → SameBoard g h → Stocked g → Stocked h
Stocked-same g h b (board, left) = (
  subst (λ p. OnBoard p (length h.community_cards)) (sym b.phase)
      (subst (λ cs. OnBoard g.current_phase (length cs)) (sym b.board) board),
  subst (λ p. needed p ≤ length h.deck) (sym b.phase)
      (subst (λ cs. needed g.current_phase ≤ length cs) (sym b.deck) left),
)

act-Sound :
    (ps : List Player) (id : ℕ) (action : Action) (amount : ℤ) (g : Game)
    → Sound ps g
    → Sound ps (process_player_action id action amount g).0
act-Sound ps id action amount g s =
    let m = process-Conserves id action amount g in
    let k = process-Seated id action amount g in
    record {
      chips = omega (arith, s.chips, m.chips);
      pot = omega (arith, s.pot, m.staked);
      ids = k.ids ∙ s.ids;
      held = k.held s.held;
      stocked = Stocked-same g _ k.same s.stocked;
    }

advance-Sound :
    (ps : List Player) (g h : Game) (b : Bool)
    → advance_to_next_phase g ≡ ok (h, b)
    → Sound ps g
    → Sound ps h
advance-Sound ps g h b e s =
    let (r, run, (m, t, _)) = advance_to_next_phase-Moved g s.stocked in
    let same : r ≡ (h, b) = cc in
    subst (λ x. Sound ps x.0) same
      (record {
        chips = omega (arith, s.chips, m.chips, m.pot);
        pot = m.pot ∙ s.pot ∙ sym m.staked;
        ids = m.ids ∙ s.ids;
        held = m.held s.held;
        stocked = t;
      })

pub Steps-Sound : (ps : List Player) {g h : Game} → Steps g h → Sound ps g → Sound ps h
Steps-Sound ps done s = s
Steps-Sound ps (next before (act {g = g} id action amount)) s =
    act-Sound ps id action amount g (Steps-Sound ps before s)
Steps-Sound ps (next before (advance {g = g} {h = h} {b = b} e)) s =
    advance-Sound ps g h b e (Steps-Sound ps before s)

pub Started-Sound :
    (shuffle : List Card → List Card) (g h : Game)
    → length g.players ≤ 10
    → Started shuffle g h
    → Sound g.players h
Started-Sound shuffle g h few s = record {
  chips = s.chips;
  pot = s.pot;
  ids = s.ids;
  held = s.held;
  stocked = (
    subst (λ p. OnBoard p (length h.community_cards)) (sym s.phase) (ap length s.board),
    subst (λ p. needed p ≤ length h.deck) (sym s.phase)
        (omega (arith, s.deck, few, length-keep_if has_chips g.players)),
  );
}

All-ids :
    (x : ℕ) (ps qs : List Player)
    → ids_of ps ≡ ids_of qs
    → All (λ r. r.id ≢ x) ps
    → All (λ r. r.id ≢ x) qs
All-ids x [] [] e a = tt
All-ids x [] (q ∷ qs) e a = cc
All-ids x (p ∷ ps) [] e a = cc
All-ids x (p ∷ ps) (q ∷ qs) e a =
    let front : p.id ≡ q.id = cc in
    let back : ids_of ps ≡ ids_of qs = cc in
    (subst (λ i. i ≢ x) front a.0, All-ids x ps qs back a.1)

DistinctIds-ids : (ps qs : List Player) → ids_of ps ≡ ids_of qs → DistinctIds ps → DistinctIds qs
DistinctIds-ids [] [] e d = tt
DistinctIds-ids [] (q ∷ qs) e d = cc
DistinctIds-ids (p ∷ ps) [] e d = cc
DistinctIds-ids (p ∷ ps) (q ∷ qs) e d =
    let front : p.id ≡ q.id = cc in
    let back : ids_of ps ≡ ids_of qs = cc in
    (
      subst (λ i. All (λ r. r.id ≢ i) qs) front (All-ids p.id ps qs back d.0),
      DistinctIds-ids ps qs back d.1,
    )

HaveCards-HoldsTwo :
    (community : List Card) (ps : List Player)
    → All HoldsTwo ps
    → HaveCards community (keep_if in_hand ps)
HaveCards-HoldsTwo community [] a = tt
HaveCards-HoldsTwo community (p ∷ ps) a = elim (Bool-cases (in_hand p)) [
  | inl e ↦
      let two = a.0 e in
      rw e (
        omega (arith, two, length-append p.hole_cards community),
        HaveCards-HoldsTwo community ps a.1,
      )
  | inr e ↦ rw e (HaveCards-HoldsTwo community ps a.1)
]

-- A hand, however it goes.
module _ (shuffle : List Card → List Card) (g h k : Game)
    (keeps : (cards : List Card) → length (shuffle cards) ≡ length cards)
    (many : 2 ≤ length (keep_if has_chips g.players)) (few : length g.players ≤ 10)
    (started : start_new_hand shuffle g ≡ ok h) (steps : Steps h k) where
  -- From the start of a hand on, whatever calls of process_player_action and advance_to_next_phase
  -- are made: the chips on the table are those the players began with, the pot is what they have
  -- staked in this hand, no id changes, whoever is in the hand holds two cards, and the board and
  -- the deck have the cards of the phase. (There are two to ten players, two of them with chips,
  -- and the shuffle keeps the number of cards.)
  pub play-Sound : Sound g.players k
  play-Sound =
      let (f, run, s) = start_new_hand-Started shuffle g keeps many few in
      let same : f ≡ h = cc in
      Steps-Sound g.players steps (subst (Sound g.players) same (Started-Sound shuffle g f few s))

  -- The showdown of a hand in which two players or more are left does not raise, whatever calls of
  -- process_player_action and advance_to_next_phase came before, and the chips of the players and
  -- the pot are together what the players began the hand with. (Ids differ, there are two to ten
  -- players, two of them with chips, and the shuffle keeps the number of cards.)
  pub play-Conserves :
      DistinctIds g.players
      → 2 ≤ length (keep_if in_hand k.players)
      → (r : Game) × (s : ShowdownResult) × (conduct_showdown k ≡ ok (r, s))
        × (stacks r.players + r.pot ≡ stacks g.players)
  play-Conserves d left =
      let s = play-Sound in
      let (r, t, run, sum) =
        conduct_showdown-Conserves k (DistinctIds-ids g.players k.players (sym s.ids) d)
          (HaveCards-HoldsTwo k.community_cards k.players s.held) s.pot left in
      (r, t, run, omega (arith, sum, s.chips))
