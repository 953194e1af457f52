-- ===== src/Game/Showdown/Default.antt =====
-- `conduct_showdown` with one player left.
use adk_poker.Base.{◌+◌, ◌≡◌, refl, List, [], ◌∷◌, some, keep_if, arith}
use mathlib.Core.Path.{subst}
use adk_poker.Result.{ok, Yields}
use adk_poker.Player.{Player}
use adk_poker.Game.State.{
  Game, ShowdownResult, in_hand, find_player, put_player, stacks, log_entry, no_remaining_players,
}
use adk_poker.Game.Table.{sum_of-put_player}
use adk_poker.Game.Showdown.{win_by_default, showdown_among, conduct_showdown}

-- The winner's stack grew by the pot, the other stacks did not change, and the pot is what it was.
abbrev pub PaysTwice : Game → Player → Game × ShowdownResult → Type 0
PaysTwice g p r =
    (r.0.players ≡ put_player p.id (record p { chips = p.chips + g.pot }) g.players)
    × (stacks r.0.players ≡ stacks g.players + g.pot)
    × (r.0.pot ≡ g.pot)
    × (r.1.winners ≡ p.id ∷ [])

-- When one player is left, the showdown does not raise; that player gets the whole pot and is the
-- only winner. The pot itself keeps its amount, so that stacks and pot together have grown by it.
pub conduct_showdown-PaysTwice :
    (g : Game) (p : Player)
    → keep_if in_hand g.players ≡ p ∷ []
    → find_player p.id g.players ≡ some p
    → Yields (PaysTwice g p) (conduct_showdown g)
unfolding conduct_showdown win_by_default
conduct_showdown-PaysTwice g p only found = go (keep_if in_hand g.players) only
  where
    go :
        (remaining : List Player)
        → remaining ≡ p ∷ []
        → Yields (PaysTwice g p) (elim remaining [
          | [] ↦ ok (
            log_entry no_remaining_players (record g {
              last_showdown_results = some (record { winners = []; results = []; all_hands = [] });
            }),
            record { winners = []; results = []; all_hands = [] },
          )
          | q ∷ [] ↦ ok (win_by_default q g)
          | q ∷ r ∷ ps ↦ showdown_among (q ∷ r ∷ ps) g
        ])
    go [] e = cc
    go (q ∷ []) e =
        let same : p ≡ q = cc in
        let sum =
          sum_of-put_player (λ r. r.chips) p.id (record p { chips = p.chips + g.pot }) g.players p
            found in
        subst (λ x. Yields (PaysTwice g p) (ok (win_by_default x g))) same
          (win_by_default p g, refl, (refl, omega (arith, sum), refl, refl))
    go (q ∷ r ∷ ps) e = cc
