-- ===== src/Game/Showdown/Payment.antt =====
-- `conduct_showdown` as a whole: the payment of the shares.
use mathlib.Core.Path.{subst}
use mathlib.Core.Option.{none-ne-some}
use adk_poker.Base.{
  ℕ, ◌+◌, ◌-◌, ◌≤◌, ◌≡◌, refl, ◌∙◌, sym, true, List, [], ◌∷◌, map, length, Option, some, keep_if,
  contains, All, arith,
}
use adk_poker.Base.Dict.{keys}
use adk_poker.Result.{Result, ok}
use adk_poker.Ranking.{HandResult}
use adk_poker.Player.{Player}
use adk_poker.Game.State.{
  no_remaining_players, Game, stacks, stakes, in_hand, ShowdownResult, log_entry,
}
use adk_poker.Game.Pots.{build_pot_layers, contributions}
use adk_poker.Game.Showdown.{
  Payout, log_hands, hands_from, settle, showdown_among, conduct_showdown, win_by_default,
}
use adk_poker.Game.Showdown.Layers.{DistinctIds, layers-stakes}
use adk_poker.Game.Showdown.Winners.{HasHand}
use adk_poker.Game.Showdown.Shown.{
  HaveCards, ids_of, show_hands_total, hands_from-AllShown, hands_from-cases,
}
use adk_poker.Game.Showdown.Shares.{AllShown, claimed, claimed-le, share_layers-Pays}
use adk_poker.Game.Showdown.Paid.{
  All-Known, All-map, Known, keep_if-weaken, log_hands-same, settle-pays,
}

-- What the players left can claim of the layers.
abbrev pub won : List Player → Game → ℕ
won remaining g = claimed (ids_of remaining) (build_pot_layers (contributions g.players))

abbrev pub PaysOut : ℕ → Game → Result (Game × ShowdownResult) → Type 0
PaysOut amount g r =
    (h : Game) × (s : ShowdownResult) × (r ≡ ok (h, s))
    × (stacks h.players ≡ stacks g.players + amount)
    × (h.pot ≡ g.pot - amount)

shown-Known :
    (players : List Player) (shown : List (Player × Option HandResult))
    → All (λ p. Known players p.id) (map (λ (s : Player × Option HandResult). s.0) shown)
    → All (λ s. Known players s.0.id) shown
shown-Known players [] h = tt
shown-Known players (s ∷ shown) h = (h.0, shown-Known players shown h.1)

showdown_among-PaysOut :
    (remaining : List Player) (g : Game)
    → All (λ p. Known g.players p.id) remaining
    → HaveCards g.community_cards remaining
    → PaysOut (won remaining g) g (showdown_among remaining g)
unfolding showdown_among
showdown_among-PaysOut remaining g known cards =
    let (shown, run, all, same) = show_hands_total g.community_cards remaining cards in
    let hands = hands_from [] shown in
    let start : Payout = record { winnings = []; awarded = 0 } in
    let (lp, lt) = log_hands-same shown g in
    let layers = build_pot_layers (contributions g.players) in
    let all_shown : AllShown hands (ids_of remaining) = λ pid c.
      hands_from-AllShown [] shown pid all
        (subst (λ ps. contains pid (ids_of ps) ≡ true) (sym same) c) in
    let (pay, h, run', awarded, sum, keyed, ps, pot) =
      share_layers-Pays hands (ids_of remaining) 0 layers start (log_hands shown g) all_shown tt in
    let keys_known : All (Known g.players) (keys pay.winnings) =
      All-map (HasHand hands) (Known g.players) (keys pay.winnings)
        (hands_from-cases (Known g.players) [] shown
          (shown-Known g.players shown
            (subst (λ ps. All (λ p. Known g.players p.id) ps) (sym same) known))
          (λ pid x. absurd (none-ne-some x.0 x.1)))
        keyed in
    let players : h.players ≡ g.players = ps ∙ lp in
    let (paid, left) =
      settle-pays hands shown pay h
        (subst (λ l. All (Known l) (keys pay.winnings)) (sym players) keys_known) in
    (
      (settle hands shown pay h).0,
      (settle hands shown pay h).1,
      rw run (rw run'),
      paid ∙ rw players (omega (arith, sum)),
      omega (arith, left, pot, lt, awarded),
    )

pub won-le-stakes :
    (remaining : List Player) (g : Game)
    → DistinctIds g.players
    → won remaining g ≤ stakes g.players
won-le-stakes remaining g d = omega (
  arith,
  claimed-le (ids_of remaining) (build_pot_layers (contributions g.players)),
  layers-stakes g.players d,
)

-- With two players or more left, and a hand to be read for each of them, a showdown does not
-- raise; the stacks grow by what the layers with a player left hold, and the pot is lowered by
-- that, stopping at 0.
pub conduct_showdown-PaysOut :
    (g : Game)
    → HaveCards g.community_cards (keep_if in_hand g.players)
    → 2 ≤ length (keep_if in_hand g.players)
    → PaysOut (won (keep_if in_hand g.players) g) g (conduct_showdown g)
unfolding conduct_showdown
conduct_showdown-PaysOut g cards many = go (keep_if in_hand g.players) refl many
  where
    go :
        (remaining : List Player)
        → keep_if in_hand g.players ≡ remaining
        → 2 ≤ length remaining
        → PaysOut (won remaining g) g (elim remaining [
          | [] ↦ ok (
            log_entry no_remaining_players (record g {
              last_showdown_results = some (record { winners = []; results = []; all_hands = [] });
            }),
            record { winners = []; results = []; all_hands = [] },
          )
          | p ∷ [] ↦ ok (win_by_default p g)
          | p ∷ q ∷ ps ↦ showdown_among (p ∷ q ∷ ps) g
        ])
    go [] e k = absurd (omega arith)
    go (p ∷ []) e k = absurd (omega arith)
    go (p ∷ q ∷ ps) e k =
        let known =
          keep_if-weaken (λ r. Known g.players r.id) in_hand g.players (All-Known g.players) in
        showdown_among-PaysOut (p ∷ q ∷ ps) g (subst (All (λ r. Known g.players r.id)) e known)
          (subst (HaveCards g.community_cards) e cards)

-- A showdown with two players or more left never raises, if a hand can be read for each of them;
-- and if ids differ and the pot is what was staked, no chip is made or lost: what is not paid out
-- stays in the pot.
pub conduct_showdown-Conserves :
    (g : Game)
    → DistinctIds g.players
    → HaveCards g.community_cards (keep_if in_hand g.players)
    → g.pot ≡ stakes g.players
    → 2 ≤ length (keep_if in_hand g.players)
    → (h : Game) × (s : ShowdownResult) × (conduct_showdown g ≡ ok (h, s))
      × (stacks h.players + h.pot ≡ stacks g.players + g.pot)
conduct_showdown-Conserves g d cards pot many =
    let (h, s, run, paid, left) = conduct_showdown-PaysOut g cards many in
    let bound = won-le-stakes (keep_if in_hand g.players) g d in
    (h, s, run, omega (arith, paid, left, bound))
