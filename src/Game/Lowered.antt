-- ===== src/Game/Lowered.antt =====
-- Raises by a negative amount in `process_player_action`.
use adk_poker.Base.{ℕ, ◌+◌, ◌≤◌, ◌<◌, ◌≡◌, refl, true, arith, some, Option-cases, inl, inr}
use adk_poker.Base.Int.{negsuc, ◌-ℤ◌, ◌+ℤ◌}
use adk_poker.Player.{Player, bet}
use adk_poker.Game.State.{Game, Entry}
use adk_poker.Game.Frame.{finish-SameTable}
use adk_poker.Game.Action.{raise_to, perform, perform_raise, acting_player, process_player_action}

perform_raise-lowers :
    (g : Game) (p : Player) (n : ℕ)
    → p.current_bet < g.current_bet
    → g.current_bet ≤ p.current_bet + p.chips
    → (d : Game × Entry) × (perform g p raise_to (negsuc n) ≡ some d)
      × (d.0.current_bet < g.current_bet)
unfolding perform perform_raise bet ◌-ℤ◌ ◌+ℤ◌
perform_raise-lowers g p n h k = elim (Option-cases (perform_raise g p (negsuc n))) [
  | inl e ↦ ground (arith, e, h, k)
  | inr (d, e) ↦ (d, e, ground (arith, e, h, k))
]

-- The player whose turn it is, who has something to call and the chips for it, may raise by any
-- negative amount: the call is accepted, and the current bet falls.
pub process-lowers :
    (id : ℕ) (g : Game) (p : Player) (n : ℕ)
    → acting_player id g ≡ some p
    → p.current_bet < g.current_bet
    → g.current_bet ≤ p.current_bet + p.chips
    → ((process_player_action id raise_to (negsuc n) g).1 ≡ true)
      × ((process_player_action id raise_to (negsuc n) g).0.current_bet < g.current_bet)
unfolding process_player_action
process-lowers id g p n e h k =
    let (d, run, lower) = perform_raise-lowers g p n h k in
    let same = (finish-SameTable raise_to (negsuc n) id d.0 d.1).current_bet in
    rw (e, process_player_action) (rw run (refl, omega (arith, same, lower)))
