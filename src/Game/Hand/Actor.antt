-- ===== src/Game/Hand/Actor.antt =====
-- The last steps of `start_new_hand`: the first actor and the row of the history.
use native.Mathlib.Nat.{mod-lt}
use mathlib.Core.Path.{subst}
use adk_poker.Base.{
  ◌+◌, ◌%◌, ◌≡◌, refl, true, map, length, get_elem?, some, keep_if, contains, arith, ltb, ◌==◌,
  Bool-cases, inl, inr,
}
use adk_poker.Result.{Yields}
use adk_poker.Player.{Player}
use adk_poker.History
use adk_poker.Game.State.{Game, seats, not_busted}
use adk_poker.Game.Hand.{takes_part, set_first_actor_preflop, open_hand}
use adk_poker.Game.Hand.Seats.{
  at-Yields, index_from-Yields, All-contains_self, seats_from-Passes, contains-All,
}

-- What the first actor leaves alone.
pub record SameHand (g h : Game) : Type 0 where
  pub players : h.players ≡ g.players
  pub pot : h.pot ≡ g.pot
  pub dealer : h.dealer_button ≡ g.dealer_button
  pub deck : h.deck ≡ g.deck
  pub board : h.community_cards ≡ g.community_cards
  pub phase : h.current_phase ≡ g.current_phase

pub set_first_actor_preflop-Yields : (g : Game) → Yields (SameHand g) (set_first_actor_preflop g)
unfolding set_first_actor_preflop
set_first_actor_preflop-Yields g = elim (Bool-cases (ltb (length (seats takes_part g)) 2)) [
  | inl e ↦ (
    record g { betting_round_complete = true },
    rw e refl,
    record { players = refl; pot = refl; dealer = refl; deck = refl; board = refl; phase = refl },
  )
  | inr e ↦ elim (Bool-cases (contains g.dealer_button (seats takes_part g))) [
    | inr f ↦
        let (i, run, _) =
          at-Yields _ (seats takes_part g) 0 (ground arith)
            (All-contains_self (seats takes_part g)) in
        (
          record g { current_player_index = i },
          rw (e, f) (rw run refl),
          record {
            players = refl;
            pot = refl;
            dealer = refl;
            deck = refl;
            board = refl;
            phase = refl;
          },
        )
    | inl f ↦
        let (j, run, _) = index_from-Yields 0 g.dealer_button (seats takes_part g) f in
        elim (Bool-cases (length (seats takes_part g) == 2)) [
          | inl h ↦ (
            record g { current_player_index = g.dealer_button },
            rw (e, f) (rw run (rw h refl)),
            record {
              players = refl;
              pot = refl;
              dealer = refl;
              deck = refl;
              board = refl;
              phase = refl;
            },
          )
          | inr h ↦
              let (i, run', _) =
                at-Yields _ (seats takes_part g) ((j + 3) % length (seats takes_part g))
                  (mod-lt (j + 3) (ground arith)) (All-contains_self (seats takes_part g)) in
              (
                record g { current_player_index = i },
                rw (e, f) (rw run (rw h (rw run' refl))),
                record {
                  players = refl;
                  pot = refl;
                  dealer = refl;
                  deck = refl;
                  board = refl;
                  phase = refl;
                },
              )
        ]
  ]
]

pub open_hand-Yields :
    (g : Game)
    → contains g.dealer_button (seats not_busted g) ≡ true
    → Yields (SameHand g) (open_hand g)
unfolding open_hand
open_hand-Yields g d =
    let (k, e, (p, found, _)) =
      contains-All _ g.dealer_button (seats not_busted g) d
        (seats_from-Passes not_busted 0 g.players) in
    let same : k ≡ g.dealer_button = omega (arith, e) in
    let there = subst (λ i. get_elem? g.players i ≡ some p) same found in
    let row =
      History.start_new_hand g.small_blind g.big_blind p.id
        (map (λ (q : Player). q.id) (keep_if not_busted g.players)) g.db in
    (
      record g { current_hand_id = some row.0; db = row.1 },
      rw there refl,
      record { players = refl; pot = refl; dealer = refl; deck = refl; board = refl; phase = refl },
    )
