-- ===== src/Game/Rotation.antt =====
-- After a turn: `_advance_to_next_player` and `_check_betting_round_complete`.
use adk_poker.Base.{
  ℕ, zero, suc, ◌+◌, ◌%◌, ◌≤◌, ◌<◌, ◌≡◌, refl, ◌∙◌, sym, ◌⊎◌, Bool, true, false, ◌&&◌, not, List,
  [], ◌∷◌, length, keep_if, every, All, arith, ltb, leb, ◌==◌, if◌then◌else◌, Bool-cases,
  Option-cases, inl, inr, Option, none, some,
}
use mathlib.Core.Path.{subst}
use mathlib.Core.Bool.{false≢true}
use adk_poker.Base.Int.{ℤ}
use adk_poker.Player.{Player, is_all_in}
use adk_poker.History.{Phase, ActionType}
use adk_poker.Game.State.{Game, Entry, can_act, log_action, log_entry}
use adk_poker.Game.Money.{AfterAction}
use adk_poker.Game.Frame.{check-SameTable}
use adk_poker.Game.Turn.{process_cases}
use adk_poker.Game.Round.{
  active_at, next_seat, advance_to_next_player, check_betting_round_complete, after_equal_bets,
  single_active, is_some,
}
use adk_poker.Game.Action.{
  Action, fold, check, call, raise_to, all_in, other, perform, perform_call, perform_raise,
  perform_all_in, all_in_raise, finish, action_type, recorded_amount, process_player_action,
}

-- The scan of the seats stops at the first one that passes.
abbrev pub FirstFrom : (ℕ → Bool) → ℕ → ℕ → ℕ → ℕ → Type 0
FirstFrom test start total i j =
    (k : ℕ) × (i ≤ k)
    × (j ≡ (start + k) % total)
    × (test j ≡ true)
    × ((m : ℕ) → i ≤ m → m < k → test ((start + m) % total) ≡ false)

next_seat-FirstFrom :
    (test : ℕ → Bool) (start total n i j : ℕ)
    → next_seat test start total n i ≡ some j
    → FirstFrom test start total i j
unfolding next_seat
next_seat-FirstFrom test start total zero i j h = cc
next_seat-FirstFrom test start total (suc n) i j h =
    elim (Bool-cases (test ((start + i) % total))) [
      | inl e ↦
          let same : j ≡ (start + i) % total = ground (arith, e, h) in
          (i, omega arith, same, rw same e, λ m a b. absurd (omega arith))
      | inr e ↦
          let rest : next_seat test start total n (suc i) ≡ some j = ground (arith, e, h) in
          let (k, low, same, passes, skipped) =
            next_seat-FirstFrom test start total n (suc i) j rest in
          (
            k,
            omega arith,
            same,
            passes,
            λ m a b. elim (Bool-cases (m == i)) [
              | inl f ↦ let here : m ≡ i = ground arith in rw here e
              | inr f ↦ skipped m (ground arith) b
            ],
          )
    ]

-- The active players have all matched the bet.
abbrev pub Matched : Game → Type 0
Matched g = All (λ p. g.current_bet ≤ p.current_bet) (keep_if can_act g.players)

every-Matched :
    (bet : ℕ) (ps : List Player)
    → every (λ p. p.current_bet == bet) ps ≡ true
    → All (λ p. bet ≤ p.current_bet) ps
every-Matched bet [] h = tt
every-Matched bet (p ∷ ps) h = elim (Bool-cases (p.current_bet == bet)) [
  | inl e ↦ (ground arith, every-Matched bet ps (ground arith))
  | inr e ↦ ground arith
]

-- A round does not end while an active player has bet less than the current bet, when two players
-- or more are left in the hand.
pub check_betting_round_complete-Matched :
    (g : Game)
    → g.betting_round_complete ≡ false
    → (check_betting_round_complete g).betting_round_complete ≡ true
    → 2 ≤ length (keep_if can_act g.players) + length (keep_if (λ p. is_all_in p.status) g.players)
    → Matched g
unfolding check_betting_round_complete single_active
check_betting_round_complete-Matched g before after many =
    go (keep_if can_act g.players) (length (keep_if (λ p. is_all_in p.status) g.players)) refl many
      after
  where
    go :
        (acting : List Player) (all_ins : ℕ)
        → keep_if can_act g.players ≡ acting
        → 2 ≤ length acting + all_ins
        → (if leb (length acting + all_ins) 1
            then record g { betting_round_complete = true }
            else if length acting == 0
            then record g { betting_round_complete = true }
            else if length acting == 1
            then single_active g acting
            else if not (every (λ p. p.current_bet == g.current_bet) acting)
            then g
            else if is_some g.last_raiser_index && g.has_bet_or_raise_this_round
            then record g { betting_round_complete = true }
            else after_equal_bets g g.last_raiser_index).betting_round_complete
          ≡ true
        → All (λ p. g.current_bet ≤ p.current_bet) acting
    go [] n e l h = tt
    go (p ∷ []) n e l h = elim (Bool-cases (ltb p.current_bet g.current_bet)) [
      | inl f ↦ absurd (ground (arith, f, h, before, l))
      | inr f ↦ (ground arith, tt)
    ]
    go (p ∷ q ∷ ps) n e l h =
        elim (Bool-cases (every (λ r. r.current_bet == g.current_bet) (p ∷ q ∷ ps))) [
          | inl f ↦ every-Matched g.current_bet (p ∷ q ∷ ps) f
          | inr f ↦ absurd (ground (arith, f, h, before, l))
        ]

check-turn :
    (g : Game)
    → ((check_betting_round_complete g).current_player_index ≡ g.current_player_index)
      × (g.betting_round_complete ≡ true
          → (check_betting_round_complete g).betting_round_complete ≡ true)
unfolding check_betting_round_complete after_equal_bets single_active
check-turn g = ground arith

log_action-turn :
    (phase : Phase) (id : ℕ) (action : ActionType) (amount : ℤ) (g : Game)
    → ((log_action phase id action amount g).current_player_index ≡ g.current_player_index)
      × ((log_action phase id action amount g).betting_round_complete ≡ g.betting_round_complete)
unfolding log_action
log_action-turn phase id action amount g = ground arith

-- The turn and the end of the round, before the bookkeeping.
SameTurn : Game → Game → Type 0
SameTurn g h =
    (h.current_player_index ≡ g.current_player_index)
    × (h.betting_round_complete ≡ g.betting_round_complete)

perform-SameTurn :
    (g : Game) (p : Player) (action : Action) (amount : ℤ)
    → AfterAction (SameTurn g) (perform g p action amount)
unfolding SameTurn perform perform_call perform_raise perform_all_in all_in_raise
perform-SameTurn g p fold amount = (refl, refl)
perform-SameTurn g p check amount = ground arith
perform-SameTurn g p call amount = ground arith
perform-SameTurn g p raise_to amount = ground arith
perform-SameTurn g p all_in amount = ground arith
perform-SameTurn g p other amount = tt

-- Where the turn is after the move to the next player.
abbrev pub Rotated : ℕ → Game → Type 0
Rotated from h =
    (h.betting_round_complete ≡ true)
    ⊎ FirstFrom (active_at h.players) from (length h.players) 1 h.current_player_index

advance_to_next_player-Rotated :
    (g : Game) → Rotated g.current_player_index (advance_to_next_player g)
unfolding advance_to_next_player
advance_to_next_player-Rotated g =
    elim (Option-cases (
      next_seat (active_at g.players) g.current_player_index (length g.players) (length g.players)
        1)) [
          | inl e ↦ rw (e, advance_to_next_player) (inl refl)
          | inr (i, e) ↦
              rw (e, advance_to_next_player)
                (inr (
                  next_seat-FirstFrom (active_at g.players) g.current_player_index
                    (length g.players) (length g.players) 1 i e))
        ]

check-Rotated :
    (from : ℕ) (g : Game) → Rotated from g → Rotated from (check_betting_round_complete g)
check-Rotated from g (inl h) = inl ((check-turn g).1 h)
check-Rotated from g (inr r) = inr (
    subst
      (λ ps.
        FirstFrom (active_at ps) from (length ps) 1
          (check_betting_round_complete g).current_player_index)
      (sym (check-SameTable g).players)
      (subst (FirstFrom (active_at g.players) from (length g.players) 1) (sym (check-turn g).0) r))

finish-Rotated :
    (g : Game) (action : Action) (amount : ℤ) (id : ℕ) (done : Option (Game × Entry))
    (d : Game × Entry)
    → AfterAction (SameTurn g) done
    → done ≡ some d
    → Rotated g.current_player_index (finish action amount id d)
unfolding finish SameTurn
finish-Rotated g action amount id none d c e = cc
finish-Rotated g action amount id (some (h, x)) (h', x') c e =
    let k : h ≡ h' = cc in
    let turn : h'.current_player_index ≡ g.current_player_index =
      subst (λ y. y.current_player_index ≡ g.current_player_index) k c.0 in
    let logged =
      log_action h'.current_phase id (action_type action) (recorded_amount h' id action amount)
        (log_entry x' h') in
    let same =
      (log_action-turn h'.current_phase id (action_type action)
        (recorded_amount h' id action amount) (log_entry x' h')).0 in
    subst (λ i. Rotated i (check_betting_round_complete (advance_to_next_player logged)))
      (same ∙ turn)
      (check-Rotated logged.current_player_index (advance_to_next_player logged)
        (advance_to_next_player-Rotated logged))

-- After an accepted action the round is over, or it is the turn of the first active seat behind
-- that of the player who acted, in the order of the seats.
pub process-Rotated :
    (id : ℕ) (action : Action) (amount : ℤ) (g : Game)
    → (process_player_action id action amount g).1 ≡ true
    → Rotated g.current_player_index (process_player_action id action amount g).0
process-Rotated id action amount g =
    process_cases (λ r. r.1 ≡ true → Rotated g.current_player_index r.0) id action amount g
      (λ h. absurd (false≢true h))
      λ p d e f h.
        finish-Rotated g action amount id (perform g p action amount) d
          (perform-SameTurn g p action amount) f
