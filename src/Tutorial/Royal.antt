-- ===== src/Tutorial/Royal.antt =====
-- Sorted ranks, and the straights among them that start from the ace: the test for a royal flush in
-- `_eval_five` of tutorial_agents/agent_with_tool/hand_evaluator_tool.py.
use adk_poker.Base.{
  ℕ, ◌+◌, ◌≤◌, ◌≡◌, refl, ◌∙◌, sym, inl, inr, true, false, List, [], ◌∷◌, arith, length, contains,
  Bool-cases, if◌then◌else◌,
}
use mathlib.Core.Path.{subst}
use adk_poker.Result.{ok, first}
use adk_poker.Cards.{Card}
use adk_poker.Ranking.{same_ranks}
use adk_poker.Evaluator.{
  sort_cards, insert_card, is_straight, straight_ranks, sort_desc, distinct, ranks_of, wheel,
}
use adk_poker.Evaluator.Shape.{length-sort_desc, length-distinct}
use adk_poker.Evaluator.Wheel.{Falls, is_straight_iff}
use adk_poker.Tutorial.Simple.{same_set, royal_ranks}

-- Sorted from the highest rank down.
abbrev pub Descends : List ℕ → Type 0
Descends [] = Unit
Descends (x ∷ []) = Unit
Descends (x ∷ y ∷ xs) = (y ≤ x) × Descends (y ∷ xs)

insert_card-Descends :
    (c : Card) (cards : List Card)
    → Descends (ranks_of cards)
    → Descends (ranks_of (insert_card c cards))
unfolding insert_card
insert_card-Descends c [] h = tt
insert_card-Descends c (d ∷ []) h = ground arith
insert_card-Descends c (d ∷ e ∷ cards) h = ground (arith, insert_card-Descends c (e ∷ cards) h.1)

pub sort_cards-Descends : (cards : List Card) → Descends (ranks_of (sort_cards cards))
unfolding sort_cards
sort_cards-Descends [] = tt
sort_cards-Descends (c ∷ cards) =
    insert_card-Descends c (sort_cards cards) (sort_cards-Descends cards)

contains-distinct : (x : ℕ) (xs : List ℕ) → contains x (distinct (x ∷ xs)) ≡ true
unfolding distinct
contains-distinct x xs = ground arith

distinct-cons :
    (x : ℕ) (xs : List ℕ)
    → distinct (x ∷ xs) ≡ (if contains x (distinct xs) then distinct xs else x ∷ distinct xs)
unfolding distinct
distinct-cons x xs = refl

-- Sorted ranks of which none is there twice fall.
pub distinct-full : (xs : List ℕ) → Descends xs → length (distinct xs) ≡ length xs → Falls xs
distinct-full [] h k = tt
distinct-full (x ∷ []) h k = tt
distinct-full (x ∷ y ∷ xs) h k = elim (Bool-cases (contains x (distinct (y ∷ xs)))) [
  | inl e ↦ absurd (ground (arith, distinct-cons x (y ∷ xs), length-distinct (y ∷ xs)))
  | inr e ↦ (
    ground (arith, contains-distinct y xs),
    distinct-full (y ∷ xs) h.1 (ground (arith, distinct-cons x (y ∷ xs))),
  )
]

straight_ranks-length : (xs : List ℕ) → straight_ranks xs ≡ true → length xs ≡ 5
unfolding straight_ranks
straight_ranks-length [] h = cc
straight_ranks-length (a ∷ []) h = cc
straight_ranks-length (a ∷ b ∷ []) h = cc
straight_ranks-length (a ∷ b ∷ c ∷ []) h = cc
straight_ranks-length (a ∷ b ∷ c ∷ d ∷ []) h = cc
straight_ranks-length (a ∷ b ∷ c ∷ d ∷ e ∷ []) h = refl
straight_ranks-length (a ∷ b ∷ c ∷ d ∷ e ∷ f ∷ xs) h = cc

pub is_straight-length : (xs : List ℕ) → is_straight xs ≡ true → length (distinct xs) ≡ 5
unfolding is_straight
is_straight-length xs h =
    sym (length-sort_desc (distinct xs)) ∙ straight_ranks-length (sort_desc (distinct xs)) h

falling_royal :
    (a b c d e : ℕ)
    → a ≡ 14
    → b + 1 ≡ a
    → c + 1 ≡ b
    → d + 1 ≡ c
    → e + 1 ≡ d
    → same_set (a ∷ b ∷ c ∷ d ∷ e ∷ []) royal_ranks ≡ true
falling_royal a b c d e o p q r u =
    let b13 : b ≡ 13 = omega arith in
    let c12 : c ≡ 12 = omega arith in
    let d11 : d ≡ 11 = omega arith in
    let e10 : e ≡ 10 = omega arith in rw (o, b13, c12, d11, e10) refl

-- A straight of five sorted ranks from the ace on has the royal ranks, or is the wheel.
pub ace_straight :
    (xs : List ℕ)
    → Descends xs
    → length xs ≡ 5
    → is_straight xs ≡ true
    → first xs ≡ ok 14
    → same_ranks xs wheel ≡ false
    → same_set xs royal_ranks ≡ true
ace_straight (a ∷ b ∷ c ∷ d ∷ e ∷ []) h k s t w =
    let falls = distinct-full (a ∷ b ∷ c ∷ d ∷ e ∷ []) h (is_straight-length _ s) in
    elim ((is_straight_iff a b c d e falls).0 s) [
      | inl (p, q, r, u) ↦ falling_royal a b c d e (cc) p q r u
      | inr o ↦ let f : true ≡ false = subst (λ l. same_ranks l wheel ≡ false) o w in cc
    ]
ace_straight [] h k s t w = cc
ace_straight (a ∷ []) h k s t w = absurd (omega arith)
ace_straight (a ∷ b ∷ []) h k s t w = absurd (omega arith)
ace_straight (a ∷ b ∷ c ∷ []) h k s t w = absurd (omega arith)
ace_straight (a ∷ b ∷ c ∷ d ∷ []) h k s t w = absurd (omega arith)
ace_straight (a ∷ b ∷ c ∷ d ∷ e ∷ f ∷ xs) h k s t w = absurd (omega arith)
