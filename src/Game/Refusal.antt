-- ===== src/Game/Refusal.antt =====
-- When `process_player_action` accepts an action, and when it refuses it.
use adk_poker.Base.{
  ltb→lt, ℕ, ◌-◌, ◌+◌, ◌≤◌, ◌<◌, ◌≡◌, refl, sym, ◌↔◌, ◌⊎◌, inl, inr, true, false, arith, ltb, leb,
  ◌==◌, Bool-cases, Option-cases, Option, none, some,
}
use mathlib.Core.Path.{subst}
use mathlib.Core.Bool.{false≢true}
use adk_poker.Base.Int.{ℤ, pos, pos_part, neg_part, ◌-ℤ◌, ltb_ℤ, +ℤ_parts, -ℤ_parts}
use adk_poker.Player
use adk_poker.Player.{Player, Status, is_active}
use adk_poker.Game.State.{Game, Entry, find_player}
use adk_poker.Game.Action.{
  Action, fold, check, call, raise_to, all_in, other, perform, perform_call, perform_raise,
  perform_all_in, acting_player, process_player_action, raise_total,
}

-- What the rules ask of a player for an action, with the bet to match: to check, to have matched it;
-- to call, to have the chips for it; to raise, to have the chips for the bet and the amount on top;
-- to go all in, to have chips.
abbrev pub Permits : ℕ → Player → Action → ℤ → Type 0
Permits bet p fold amount = Unit
Permits bet p check amount = bet ≤ p.current_bet
Permits bet p call amount = bet ≤ p.current_bet + p.chips
Permits bet p raise_to amount = bet + pos_part amount ≤ p.current_bet + p.chips + neg_part amount
Permits bet p all_in amount = 0 < p.chips
Permits bet p other amount = ⊥

-- The action is the turn of an active player, who may take it.
abbrev pub Allowed : ℕ → Action → ℤ → Game → Type 0
Allowed id action amount g =
    (p : Player) × (find_player id g.players ≡ some p)
    × (id ≡ g.current_player_index)
    × (p.status ≡ Player.active)
    × Permits g.current_bet p action amount

-- A branch of the action, and what it needs.
abbrev Decided : Type 0 → Option (Game × Entry) → Type 0
Decided P done = ((done ≡ none) × (P → ⊥)) ⊎ ((d : Game × Entry) × (done ≡ some d) × P)

perform-Decided :
    (g : Game) (p : Player) (action : Action) (amount : ℤ)
    → Decided (Permits g.current_bet p action amount) (perform g p action amount)
unfolding perform
perform-Decided g p fold amount = inr (_, refl, tt)
perform-Decided g p check amount = elim (Bool-cases (ltb p.current_bet g.current_bet)) [
  | inl e ↦ rw e (inl (refl, λ h. absurd (ground (arith, e, h))))
  | inr e ↦ rw e (inr (_, refl, ground (arith, e)))
]
perform-Decided g p call amount = elim (Bool-cases (leb g.current_bet p.current_bet)) [
  | inl e ↦ rw (perform_call, e) (inr (_, refl, ground (arith, e)))
  | inr e ↦ elim (Bool-cases (ltb p.chips (g.current_bet - p.current_bet))) [
    | inl f ↦ rw (perform_call, e, f) (inl (refl, λ h. absurd (ground (arith, e, f, h))))
    | inr f ↦ rw (perform_call, e, f) (inr (_, refl, ground (arith, e, f)))
  ]
]
perform-Decided g p raise_to amount =
    let d = pos g.current_bet -ℤ pos p.current_bet in
    let a = +ℤ_parts d amount in
    let b = -ℤ_parts (pos g.current_bet) (pos p.current_bet) in
    elim (Bool-cases (ltb_ℤ (pos p.chips) (raise_total g p amount))) [
      | inl e ↦
          rw (perform_raise, e)
            (inl (
              refl,
              λ h.
                  over (pos_part (raise_total g p amount)) (neg_part (raise_total g p amount))
                    (pos_part d) (neg_part d) a b e h,
            ))
      | inr e ↦
          rw (perform_raise, e)
            (inr (
              _,
              refl,
              under (pos_part (raise_total g p amount)) (neg_part (raise_total g p amount))
                  (pos_part d) (neg_part d) a b e,
            ))
    ]
  where
    over :
        (tp tn dp dn : ℕ)
        → tp + dn + neg_part amount ≡ tn + dp + pos_part amount
        → dp + 0 + p.current_bet ≡ dn + g.current_bet + 0
        → ltb (p.chips + tn) (tp + 0) ≡ true
        → g.current_bet + pos_part amount ≤ p.current_bet + p.chips + neg_part amount
        → ⊥
    over tp tn dp dn a b e h = let less = ltb→lt (p.chips + tn) (tp + 0) e in omega arith

    under :
        (tp tn dp dn : ℕ)
        → tp + dn + neg_part amount ≡ tn + dp + pos_part amount
        → dp + 0 + p.current_bet ≡ dn + g.current_bet + 0
        → ltb (p.chips + tn) (tp + 0) ≡ false
        → g.current_bet + pos_part amount ≤ p.current_bet + p.chips + neg_part amount
    under tp tn dp dn a b e = ground (arith, a, b, e)
perform-Decided g p all_in amount = elim (Bool-cases (p.chips == 0)) [
  | inl e ↦ rw (perform_all_in, e) (inl (refl, λ h. absurd (ground (arith, e, h))))
  | inr e ↦ rw (perform_all_in, e) (inr (_, refl, ground (arith, e)))
]
perform-Decided g p other amount = inl (refl, λ h. h)

active-eq : (s : Status) → is_active s ≡ true → s ≡ Player.active
active-eq Player.active h = refl
active-eq Player.folded h = cc
active-eq Player.all_in h = cc
active-eq Player.busted h = cc

-- The guards let through a player found, who has the turn and is active, and nobody else.
acting_player-cases :
    (id : ℕ) (g : Game)
    → ((acting_player id g ≡ none)
        × ((p : Player)
            → find_player id g.players ≡ some p
            → id ≡ g.current_player_index
            → p.status ≡ Player.active
            → ⊥))
      ⊎ ((p : Player) × (acting_player id g ≡ some p)
          × (find_player id g.players ≡ some p)
          × (id ≡ g.current_player_index)
          × (p.status ≡ Player.active))
unfolding acting_player
acting_player-cases id g = elim (Bool-cases (id == g.current_player_index)) [
  | inr e ↦ rw e (inl (refl, λ p f t a. absurd (ground (arith, e, t))))
  | inl e ↦ rw e (elim (Option-cases (find_player id g.players)) [
    | inl f ↦ rw f (inl (refl, λ p k t a. cc))
    | inr (p, f) ↦ rw f (elim (Bool-cases (is_active p.status)) [
      | inl a ↦ rw a (inr (p, refl, refl, ground (arith, e), active-eq p.status a))
      | inr a ↦ rw a (
          inl (
            refl,
            λ q k t b.
                let same : p ≡ q = cc in idle q b (subst (λ r. is_active r.status ≡ false) same a),
          ))
    ])
  ])
]
  where
    idle : (q : Player) → q.status ≡ Player.active → is_active q.status ≡ false → ⊥
    idle q b a = let h : is_active Player.active ≡ false = rw b at a in cc

-- process_player_action accepts an action exactly if it is the turn of the player with that id,
-- the player is active, and the rules permit the action: a fold always; a check if the bet is
-- matched; a call, a raise by the amount, of either sign, or an all-in if the chips are there for
-- it; and no other action. A refused call leaves the state as it was.
pub process_iff :
    (id : ℕ) (action : Action) (amount : ℤ) (g : Game)
    → (((process_player_action id action amount g).1 ≡ true) ↔ Allowed id action amount g)
      × ((process_player_action id action amount g).1 ≡ false
          → (process_player_action id action amount g).0 ≡ g)
unfolding process_player_action
process_iff id action amount g = elim (acting_player-cases id g) [
  | inl (e, k) ↦
      rw (e, process_player_action)
        ((λ h. absurd (false≢true h), λ (p, f, t, a, _). absurd (k p f t a)), λ _. refl)
  | inr (p, e, f, t, a) ↦ elim (perform-Decided g p action amount) [
    | inl (m, never) ↦
        rw (e, process_player_action)
          (rw m (
            (
              λ h. absurd (false≢true h),
              λ (q, f', _, _, permit).
                  let same : q ≡ p = cc in
                  absurd (never (subst (λ r. Permits g.current_bet r action amount) same permit)),
            ),
            λ _. refl,
          ))
    | inr (d, m, permit) ↦
        rw (e, process_player_action)
          (rw m ((λ _. (p, f, t, a, permit), λ _. refl), λ h. absurd (false≢true (sym h))))
  ]
]
