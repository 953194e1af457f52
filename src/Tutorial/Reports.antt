-- ===== src/Tutorial/Reports.antt =====
-- `hand_evaluator_tool` of tutorial_agents/agent_with_tool/hand_evaluator_tool.py as a whole: texts
-- in, a report out.
use adk_poker.Base.{
  ℕ, ◌+◌, ◌*◌, ◌≤◌, ◌<◌, ◌≡◌, ◌≢◌, refl, ◌⊎◌, true, false, List, [], ◌∷◌, arith, length, All,
  All-append, length-append, some, Text,
}
use adk_poker.Result.{ok, raise, value_error, Yields, traverse}
use adk_poker.Cards.{Card}
use adk_poker.Cards.Text.{card_text}
use adk_poker.Ranking.{HandResult, rank_value}
use adk_poker.Tutorial.Parse.{parse_cards, has_duplicate}
use adk_poker.Tutorial.Simple.{simple_evaluate}
use adk_poker.Tutorial.Tool.{Report, report_of, hand_evaluator_tool, score_ninths, rounded_score}
use adk_poker.Tutorial.RoundTrip.{IsCard, Prints, parse_card-card_text, parse_cards-Prints}
use adk_poker.Tutorial.Printed.{simple_evaluate-HasBest}

Prints-traverse :
    (cards : List Card) (texts : List Text)
    → Prints cards texts
    → traverse card_text cards ≡ ok texts
Prints-traverse [] [] p = refl
Prints-traverse [] (t ∷ texts) p = elim p [ ]
Prints-traverse (c ∷ cards) [] p = elim p [ ]
Prints-traverse (c ∷ cards) (t ∷ texts) p = rw (p.0, Prints-traverse cards texts p.1)

printable : (cards : List Card) → All IsCard cards → (texts : List Text) × Prints cards texts
printable [] h = ([], tt)
printable (c ∷ cards) h =
    let (t, e, _) = parse_card-card_text c h.0 in
    let (texts, p) = printable cards h.1 in (t ∷ texts, (e, p))

-- What the report says of a hand.
abbrev pub Tells : HandResult → List Text → List Text → Report → Type 0
Tells hand yours community r =
    (r.rank ≡ hand.rank)
    × (r.kickers ≡ hand.kickers)
    × (r.value ≡ rank_value hand.rank)
    × Prints hand.cards r.best_five_cards
    × (r.your_cards ≡ yours)
    × (r.community_cards ≡ community)

report_of-Tells :
    (hole board : List Card) (yours community : List Text) (hand : HandResult)
    → Prints hole yours
    → Prints board community
    → All IsCard hand.cards
    → Yields (Tells hand yours community) (report_of hole board hand)
unfolding report_of
report_of-Tells hole board yours community hand p q h =
    let (best, b) = printable hand.cards h in
    rw
      (
        Prints-traverse hand.cards best b,
        Prints-traverse hole yours p,
        Prints-traverse board community q,
      )
      (_, refl, (refl, refl, refl, b, refl, refl))

-- For two printed hole cards and any printed board, none of the two lists with a card twice,
-- hand_evaluator_tool answers. The report has the rank, its value and the kickers of the hand that
-- the evaluator finds, that hand's cards printed, and the given texts as the normalized input.
pub hand_evaluator_tool-Tells :
    (hole board : List Card) (yours community : List Text)
    → All IsCard hole
    → All IsCard board
    → Prints hole yours
    → Prints board community
    → length hole ≡ 2
    → has_duplicate hole ≡ false
    → has_duplicate board ≡ false
    → (hand : HandResult) × (simple_evaluate hole board ≡ ok (some hand))
      × Yields (Tells hand yours community) (hand_evaluator_tool yours community)
unfolding hand_evaluator_tool
hand_evaluator_tool-Tells hole board yours community h k p q two d e =
    let (hand, run, cards) =
      simple_evaluate-HasBest IsCard hole board (omega (arith, length-append hole board))
        (All-append IsCard hole board h k) in
    let read : parse_cards yours ≡ ok hole = rw d at (parse_cards-Prints hole yours h p) in
    let read' : parse_cards community ≡ ok board =
      rw e at (parse_cards-Prints board community k q) in
    (
      hand,
      run,
      rw (read, read', two, run) (report_of-Tells hole board yours community hand p q cards),
    )

-- With printed cards hand_evaluator_tool raises ValueError if there are not two hole cards, or a
-- card is twice in the hole or twice on the board.
pub hand_evaluator_tool_refused :
    (hole board : List Card) (yours community : List Text)
    → All IsCard hole
    → All IsCard board
    → Prints hole yours
    → Prints board community
    → (length hole ≢ 2) ⊎ ((has_duplicate hole ≡ true) ⊎ (has_duplicate board ≡ true))
    → hand_evaluator_tool yours community ≡ raise value_error
unfolding hand_evaluator_tool
hand_evaluator_tool_refused hole board yours community h k p q bad =
    rw (parse_cards-Prints hole yours h p, parse_cards-Prints board community k q)
      (ground (arith, bad))

-- The score of a value of a rank, in ten-thousandths.
abbrev pub score : ℕ → ℕ
score value = rounded_score (score_ninths value)

-- The score of a value is at most 1, within half a unit of the fourth decimal of the value's
-- distance from 1 in ninths, with values outside 1 to 10 clamped; it does not fall when the value
-- grows, and grows between 1 and 10.
pub score-bounds :
    (v w : ℕ)
    → (score v ≤ 10000)
      × (20000 * score_ninths v ≤ 18 * score v + 9)
      × (18 * score v ≤ 20000 * score_ninths v + 9)
      × (v ≤ w → score v ≤ score w)
      × (1 ≤ v → v < w → w ≤ 10 → score v < score w)
unfolding score_ninths rounded_score
score-bounds v w = (omega arith, omega arith, omega arith, λ h. omega arith, λ h k l. omega arith)
