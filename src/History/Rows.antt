-- ===== src/History/Rows.antt =====
-- Rows that are replaced, and rows that are read: the tables community_cards and showdown_results of
-- poker/game_history.py.
use adk_poker.Base.{
  ℕ, ◌≡◌, refl, sym, ap, ◌∙◌, inl, inr, Bool, true, false, ◌&&◌, List, [], ◌∷◌, ◌++◌, keep_if,
  arith, ◌==◌, if◌then◌else◌, Bool-cases, Option, none, some,
}
use adk_poker.Cards.{Card}
use adk_poker.History.{
  Phase, same_phase, preflop, flop, turn, river, showdown, finished, BoardRow, ShowdownRow,
  other_board, other_showdown,
}
use adk_poker.History.Reads.{board_put, boards_from, showdowns_of}

-- `boards[phase]`
abbrev pub board_at : Phase → List (Phase × List Card) → Option (List Card)
board_at phase [] = none
board_at phase ((p, cards) ∷ boards) =
    let rest = board_at phase boards in if same_phase p phase then some cards else rest

-- The row of a player.
abbrev pub shown_at : ℕ → List ShowdownRow → Option ShowdownRow
shown_at player [] = none
shown_at player (row ∷ rows) =
    let rest = shown_at player rows in if row.player_id == player then some row else rest

pub keep_if-append {ℓ} :
    {A : Type ℓ} (p : A → Bool) (xs ys : List A)
    → keep_if p (xs ++ ys) ≡ keep_if p xs ++ keep_if p ys
keep_if-append p [] ys = refl
keep_if-append p (x ∷ xs) ys = elim (Bool-cases (p x)) [
  | inl e ↦ rw (e, keep_if-append p xs ys) refl
  | inr e ↦ rw (e, keep_if-append p xs ys) refl
]

same_phase-eq : (p q : Phase) → same_phase p q ≡ true → p ≡ q
same_phase-eq preflop preflop h = refl
same_phase-eq flop flop h = refl
same_phase-eq turn turn h = refl
same_phase-eq river river h = refl
same_phase-eq showdown showdown h = refl
same_phase-eq finished finished h = refl
same_phase-eq _ _ h = cc

same_phase_self : (p : Phase) → same_phase p p ≡ true
same_phase_self preflop = refl
same_phase_self flop = refl
same_phase_self turn = refl
same_phase_self river = refl
same_phase_self showdown = refl
same_phase_self finished = refl

phases_apart :
    (q p phase : Phase)
    → same_phase q p ≡ false
    → same_phase p phase ≡ true
    → same_phase q phase ≡ false
phases_apart q p phase e f = rw (same_phase-eq p phase f) at e

board_at-put :
    (p phase : Phase) (cards : List Card) (boards : List (Phase × List Card))
    → board_at phase (board_put p cards boards)
      ≡ (if same_phase p phase then some cards else board_at phase boards)
board_at-put p phase cards [] = refl
board_at-put p phase cards ((q, cs) ∷ boards) = elim (Bool-cases (same_phase q p)) [
  | inl e ↦
      let k = same_phase-eq q p e in
      rw (e, k) (elim (Bool-cases (same_phase p phase)) [ inl f ↦ rw f refl | inr f ↦ rw f refl ])
  | inr e ↦
      rw (e, board_at-put p phase cards boards)
        (elim (Bool-cases (same_phase p phase)) [
          | inl f ↦ rw (f, phases_apart q p phase e f) refl
          | inr f ↦ rw f refl
        ])
]

abbrev pub is_row : ℕ → Phase → BoardRow → Bool
is_row id phase row = row.hand_id == id && same_phase row.phase phase

-- One row more.
boards_from-snoc :
    (id : ℕ) (phase : Phase) (row : BoardRow) (boards : List (Phase × List Card))
    (rows : List BoardRow)
    → board_at phase (boards_from boards id (rows ++ row ∷ [])) ≡ (
        if is_row id phase row then some row.cards else board_at phase (boards_from boards id rows))
unfolding boards_from
boards_from-snoc id phase row boards [] = elim (Bool-cases (row.hand_id == id)) [
  | inl e ↦ rw (e, board_at-put row.phase phase row.cards boards) refl
  | inr e ↦ rw e refl
]
boards_from-snoc id phase row boards (r ∷ rows) = elim (Bool-cases (r.hand_id == id)) [
  | inl e ↦ rw (e, boards_from-snoc id phase row (board_put r.phase r.cards boards) rows) refl
  | inr e ↦ rw (e, boards_from-snoc id phase row boards rows) refl
]

-- Rows of another hand or phase can be left out.
boards_from-other :
    (id : ℕ) (phase : Phase) (row : BoardRow) (bs cs : List (Phase × List Card))
    (rows : List BoardRow)
    → is_row id phase row ≡ false
    → board_at phase bs ≡ board_at phase cs
    → board_at phase (boards_from bs id (keep_if (other_board row) rows))
      ≡ board_at phase (boards_from cs id rows)
unfolding boards_from
boards_from-other id phase row bs cs [] h e = e
boards_from-other id phase row bs cs (r ∷ rows) h e =
    elim (Bool-cases (r.hand_id == row.hand_id && same_phase r.phase row.phase)) [
      | inl out ↦ rw out (elim (Bool-cases (r.hand_id == id)) [
        | inl f ↦
            let k : r.phase ≡ row.phase = same_phase-eq r.phase row.phase (ground arith) in
            let apart : same_phase row.phase phase ≡ false = ground arith in
            rw f (
              boards_from-other id phase row bs (board_put r.phase r.cards cs) rows h
                (e ∙ sym (board_at-put r.phase phase r.cards cs ∙ (rw (k, apart) refl))))
        | inr f ↦ rw f (boards_from-other id phase row bs cs rows h e)
      ])
      | inr stay ↦ rw stay (elim (Bool-cases (r.hand_id == id)) [
        | inl f ↦ rw f (
            boards_from-other id phase row (board_put r.phase r.cards bs)
              (board_put r.phase r.cards cs) rows h
              (board_at-put r.phase phase r.cards bs
                ∙ ap (λ o. if same_phase r.phase phase then some r.cards else o) e
                ∙ sym (board_at-put r.phase phase r.cards cs)))
        | inr f ↦ rw f (boards_from-other id phase row bs cs rows h e)
      ])
    ]

-- After `record_community_cards`.
pub board-recorded :
    (id : ℕ) (phase : Phase) (row : BoardRow) (rows : List BoardRow)
    → board_at phase (boards_from [] id (keep_if (other_board row) rows ++ row ∷ []))
      ≡ (if is_row id phase row then some row.cards else board_at phase (boards_from [] id rows))
board-recorded id phase row rows =
    boards_from-snoc id phase row [] (keep_if (other_board row) rows)
    ∙ (elim (Bool-cases (is_row id phase row)) [
      | inl e ↦ rw e refl
      | inr e ↦ rw e (boards_from-other id phase row [] [] rows e refl)
    ])

abbrev pub is_shown : ℕ → ℕ → ShowdownRow → Bool
is_shown id player row = row.hand_id == id && row.player_id == player

pub shown-snoc :
    (id player : ℕ) (row : ShowdownRow) (rows : List ShowdownRow)
    → is_shown id player row ≡ true
    → shown_at player (showdowns_of id (keep_if (other_showdown row) rows ++ row ∷ [])) ≡ some row
shown-snoc id player row [] h = ground arith
shown-snoc id player row (r ∷ rows) h = ground (arith, shown-snoc id player row rows h)

pub shown-other :
    (id player : ℕ) (row : ShowdownRow) (rows : List ShowdownRow)
    → is_shown id player row ≡ false
    → shown_at player (showdowns_of id (keep_if (other_showdown row) rows ++ row ∷ []))
      ≡ shown_at player (showdowns_of id rows)
shown-other id player row [] h = ground arith
shown-other id player row (r ∷ rows) h = ground (arith, shown-other id player row rows h)
