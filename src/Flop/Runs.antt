-- ===== src/Flop/Runs.antt =====
-- Sorted ranks and the tests for a straight of poker/evaluator.py and of
-- agents/team1_agent/flop_strategy_agent/tools/hand_evaluator.py.
use adk_poker.Base.{
  ℕ, ◌+◌, ◌-◌, ◌≡◌, refl, ap, ◌∙◌, sym, ◌⊎◌, inl, inr, true, List, [], ◌∷◌, map, arith, leb, length,
  All, Bool-cases,
}
use adk_poker.Cards.{Card}
use adk_poker.Evaluator.{sort_cards, insert_card, sort_desc, insert_desc, ranks_of, is_straight}
use adk_poker.Evaluator.Shape.{same_ranks-eq}
use adk_poker.Evaluator.Wheel.{Falls, is_straight_iff}
use adk_poker.Tutorial.RoundTrip.{IsCard}
use adk_poker.Tutorial.Printed.{All-sort_cards}
use adk_poker.Tutorial.Royal.{Descends, distinct-full, is_straight-length}
use adk_poker.Tutorial.Agrees.{wheel-is_straight}
use adk_poker.Flop.Rank.{is_run, is_stepped, wheel_indices}

-- Ranks counted from the two, and back.
abbrev pub indices_of : List Card → List ℕ
indices_of = map (λ (c : Card). c.rank - 2)

abbrev pub raised : List ℕ → List ℕ
raised = map (λ i. i + 2)

raised-indices_of :
    (cards : List Card) → All IsCard cards → raised (indices_of cards) ≡ ranks_of cards
raised-indices_of [] h = refl
raised-indices_of (c ∷ cards) h =
    let e : c.rank - 2 + 2 ≡ c.rank = omega (arith, h.0) in rw (e, raised-indices_of cards h.1)

insert_desc-insert_card :
    (c : Card) (cards : List Card)
    → IsCard c
    → All IsCard cards
    → insert_desc (c.rank - 2) (indices_of cards) ≡ indices_of (insert_card c cards)
unfolding insert_desc insert_card
insert_desc-insert_card c [] h k = refl
insert_desc-insert_card c (d ∷ cards) h k =
    let e : leb (d.rank - 2) (c.rank - 2) ≡ leb d.rank c.rank = ground (arith, h, k.0) in
    elim (Bool-cases (leb d.rank c.rank)) [
      | inl o ↦ rw (e, o)
      | inr o ↦ rw (e, o, insert_desc-insert_card c cards h k.1)
    ]

-- The indices are sorted as the cards are.
pub sort_desc-indices_of :
    (cards : List Card)
    → All IsCard cards
    → sort_desc (indices_of cards) ≡ indices_of (sort_cards cards)
unfolding sort_desc sort_cards
sort_desc-indices_of [] h = refl
sort_desc-indices_of (c ∷ cards) h =
    rw (sort_desc-indices_of cards h.1)
      (insert_desc-insert_card c (sort_cards cards) h.0 (All-sort_cards IsCard cards h.1))

pub raised-sort_desc :
    (cards : List Card)
    → All IsCard cards
    → raised (sort_desc (indices_of cards)) ≡ ranks_of (sort_cards cards)
raised-sort_desc cards h =
    ap raised (sort_desc-indices_of cards h)
    ∙ raised-indices_of (sort_cards cards) (All-sort_cards IsCard cards h)

abbrev Steps : ℕ → ℕ → ℕ → ℕ → ℕ → Type 0
Steps a b c d e = (a ≡ b + 1) × (b ≡ c + 1) × (c ≡ d + 1) × (d ≡ e + 1)

is_run-true :
    (a b c d e : ℕ)
    → is_run (a ∷ b ∷ c ∷ d ∷ e ∷ []) ≡ true
    → Steps a b c d e ⊎ (a ∷ b ∷ c ∷ d ∷ e ∷ [] ≡ wheel_indices)
is_run-true a b c d e h = elim (Bool-cases (is_stepped (a ∷ b ∷ c ∷ d ∷ e ∷ []))) [
  | inl s ↦ inl (ground (arith, s))
  | inr s ↦ inr (same_ranks-eq _ _ (rw s at h))
]

true-is_run :
    (a b c d e : ℕ)
    → Steps a b c d e ⊎ (a ∷ b ∷ c ∷ d ∷ e ∷ [] ≡ wheel_indices)
    → is_run (a ∷ b ∷ c ∷ d ∷ e ∷ []) ≡ true
true-is_run a b c d e (inl h) = ground (arith, h)
true-is_run a b c d e (inr w) = ap is_run w

raised-Falls : (xs : List ℕ) → Falls (raised xs) → Falls xs
raised-Falls [] h = tt
raised-Falls (x ∷ []) h = tt
raised-Falls (x ∷ y ∷ xs) h = (omega (arith, h.0), raised-Falls (y ∷ xs) h.1)

abbrev lowered : List ℕ → List ℕ
lowered = map (λ n. n - 2)

lowered-raised : (xs : List ℕ) → lowered (raised xs) ≡ xs
lowered-raised [] = refl
lowered-raised (x ∷ xs) = let e : x + 2 - 2 ≡ x = omega arith in rw (e, lowered-raised xs)

straight_run :
    (a b c d e : ℕ)
    → Falls (raised (a ∷ b ∷ c ∷ d ∷ e ∷ []))
    → is_straight (raised (a ∷ b ∷ c ∷ d ∷ e ∷ [])) ≡ true
    → is_run (a ∷ b ∷ c ∷ d ∷ e ∷ []) ≡ true
straight_run a b c d e f s =
    elim ((is_straight_iff (a + 2) (b + 2) (c + 2) (d + 2) (e + 2) f).0 s) [
      | inl (p, q, r, u) ↦
          true-is_run a b c d e (inl (omega arith, omega arith, omega arith, omega arith))
      | inr w ↦
          true-is_run a b c d e (inr (sym (lowered-raised (a ∷ b ∷ c ∷ d ∷ e ∷ [])) ∙ ap lowered w))
    ]

run_straight :
    (a b c d e : ℕ)
    → is_run (a ∷ b ∷ c ∷ d ∷ e ∷ []) ≡ true
    → is_straight (raised (a ∷ b ∷ c ∷ d ∷ e ∷ [])) ≡ true
run_straight a b c d e r = elim (is_run-true a b c d e r) [
  | inl (p, q, t, u) ↦
      (is_straight_iff (a + 2) (b + 2) (c + 2) (d + 2) (e + 2)
          (omega arith, (omega arith, (omega arith, (omega arith, tt))))).1
        (inl (omega arith, omega arith, omega arith, omega arith))
  | inr w ↦ ap (λ xs. is_straight (raised xs)) w ∙ wheel-is_straight
]

-- The two tests for a straight agree on five sorted ranks.
pub is_run-is_straight :
    (xs : List ℕ) → length xs ≡ 5 → Descends (raised xs) → is_run xs ≡ is_straight (raised xs)
is_run-is_straight (a ∷ b ∷ c ∷ d ∷ e ∷ []) h k =
    elim (Bool-cases (is_straight (raised (a ∷ b ∷ c ∷ d ∷ e ∷ [])))) [
      | inl s ↦
          let falls = distinct-full (raised (a ∷ b ∷ c ∷ d ∷ e ∷ [])) k (is_straight-length _ s) in
          straight_run a b c d e falls s ∙ sym s
      | inr s ↦ elim (Bool-cases (is_run (a ∷ b ∷ c ∷ d ∷ e ∷ []))) [
        | inl r ↦ let t = run_straight a b c d e r in absurd cc
        | inr r ↦ r ∙ sym s
      ]
    ]
is_run-is_straight [] h k = absurd (omega arith)
is_run-is_straight (a ∷ []) h k = absurd (omega arith)
is_run-is_straight (a ∷ b ∷ []) h k = absurd (omega arith)
is_run-is_straight (a ∷ b ∷ c ∷ []) h k = absurd (omega arith)
is_run-is_straight (a ∷ b ∷ c ∷ d ∷ []) h k = absurd (omega arith)
is_run-is_straight (a ∷ b ∷ c ∷ d ∷ e ∷ f ∷ xs) h k = absurd (omega arith)
