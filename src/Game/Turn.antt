-- ===== src/Game/Turn.antt =====
-- The shape of a turn: the guards, then a branch, then the bookkeeping.
use mathlib.Core.Path.{subst}
use adk_poker.Base.{ℕ, ◌≡◌, Bool, true, false, some, Option-cases, inl, inr, arith, sym}
use adk_poker.Base.Int.{ℤ}
use adk_poker.Player
use adk_poker.Player.{Player}
use adk_poker.Game.State.{Game, Entry, find_player}
use adk_poker.Game.Action.{Action, acting_player, perform, finish, process_player_action}
use adk_poker.Game.Table.{find_player-id}

-- The player who may act is the one found, is active, and has the turn.
pub acting_player-some :
    (id : ℕ) (g : Game) (p : Player)
    → acting_player id g ≡ some p
    → (id ≡ g.current_player_index)
      × (p.id ≡ id)
      × (find_player id g.players ≡ some p)
      × (p.status ≡ Player.active)
unfolding acting_player
acting_player-some id g p h = elim (Option-cases (find_player id g.players)) [
  | inl e ↦ ground arith
  | inr (q, e) ↦ ground (arith, find_player-id id g.players q e)
]

pub acting_player-found :
    (id : ℕ) (g : Game) (p : Player)
    → acting_player id g ≡ some p
    → find_player p.id g.players ≡ some p
acting_player-found id g p h =
    let (turn, i, found, a) = acting_player-some id g p h in
    subst (λ k. find_player k g.players ≡ some p) (sym i) found

-- A turn is refused and changes nothing, or a branch went through and its bookkeeping follows.
pub process_cases {κ} :
    (P : Game × Bool → Type κ) (id : ℕ) (action : Action) (amount : ℤ) (g : Game)
    → P (g, false)
    → ((p : Player) (d : Game × Entry)
        → acting_player id g ≡ some p
        → perform g p action amount ≡ some d
        → P (finish action amount id d, true))
    → P (process_player_action id action amount g)
unfolding process_player_action
process_cases P id action amount g refused done = elim (Option-cases (acting_player id g)) [
  | inl e ↦ rw (e, process_player_action) refused
  | inr (p, e) ↦ elim (Option-cases (perform g p action amount)) [
    | inl f ↦ rw (e, process_player_action) (rw f refused)
    | inr (d, f) ↦ rw (e, process_player_action) (rw f (done p d e f))
  ]
]
