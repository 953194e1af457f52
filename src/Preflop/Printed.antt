-- ===== src/Preflop/Printed.antt =====
-- `classify_hand` on printed cards: agents/team1_agent/preflop/tools/hand_classifier.py.
use mathlib.Core.List.{append-nil}
use mathlib.Core.Path.{subst}
use adk_poker.Base.{
  ◌≤◌, ◌≡◌, refl, sym, ap, ◌∙◌, inl, inr, List, [], ◌∷◌, ◌++◌, arith, ◌==◌, if◌then◌else◌, min, max,
  Bool-cases, ==_self, ==_swap, Text, codes, same_text_self, ltb,
}
use adk_poker.Result.{Result, ok, ◌>>=◌, Yields}
use adk_poker.Cards.{Suit, Card, same_suit}
use adk_poker.Cards.Text.{card_text}
use adk_poker.Preflop.Classify.{
  strength_of, join_ranks, hand_notation, HandCategory, HandClass, navy, red, yellow, green, blue,
  white, gray, class_of, find_category, all_categories, category_score, classify_hand,
}
use adk_poker.Preflop.Letters.{Read-card, letter, letters_apart, same_suit_code, suit_code}

-- Poker shorthand: the higher rank first, then whether the suits are the same.
abbrev pub shorthand : Card → Card → Text
shorthand c d =
    letter (max c.rank d.rank)
    ++ letter (min c.rank d.rank)
    ++ (if c.rank == d.rank then [] else if same_suit c.suit d.suit then codes "s" else codes "o")

join_ranks-shorthand :
    (c d : Card)
    → strength_of (letter c.rank) ≡ c.rank
    → strength_of (letter d.rank) ≡ d.rank
    → join_ranks (letter c.rank) (letter d.rank) (suit_code c.suit) (suit_code d.suit)
      ≡ shorthand c d
join_ranks-shorthand c d p q = elim (Bool-cases (c.rank == d.rank)) [
  | inl e ↦
      let same : c.rank ≡ d.rank = ground arith in
      let high : max d.rank d.rank ≡ d.rank = omega arith in
      let low : min d.rank d.rank ≡ d.rank = omega arith in
      rw (same, same_text_self (letter d.rank), ==_self d.rank, high, low)
        (sym (append-nil (letter d.rank ++ letter d.rank)))
  | inr e ↦ elim (Bool-cases (ltb c.rank d.rank)) [
    | inl less ↦
        let high : max c.rank d.rank ≡ d.rank = ground arith in
        let low : min c.rank d.rank ≡ c.rank = ground arith in
        rw
          (
            e,
            letters_apart c.rank d.rank p q e,
            same_suit_code c.suit d.suit,
            p,
            q,
            less,
            high,
            low,
          )
          refl
    | inr more ↦
        let high : max c.rank d.rank ≡ c.rank = ground arith in
        let low : min c.rank d.rank ≡ d.rank = ground arith in
        rw
          (
            e,
            letters_apart c.rank d.rank p q e,
            same_suit_code c.suit d.suit,
            p,
            q,
            more,
            high,
            low,
          )
          refl
  ]
]

-- Two printed cards are written in poker shorthand, in whatever order they come: the letter of the
-- higher rank, that of the lower one, and, unless the ranks are the same, s for one suit or o for
-- two.
pub hand_notation-shorthand :
    (c d : Card) (text text' : Text)
    → 2 ≤ c.rank
    → c.rank ≤ 14
    → 2 ≤ d.rank
    → d.rank ≤ 14
    → card_text c ≡ ok text
    → card_text d ≡ ok text'
    → hand_notation text text' ≡ ok (shorthand c d)
unfolding hand_notation
hand_notation-shorthand c d text text' h k h' k' e e' =
    let (r, s, p) = Read-card c text h k e in
    let (r', s', p') = Read-card d text' h' k' e' in
    rw (s, s', r, r') (ap ok (join_ranks-shorthand c d p p'))

-- The class of two printed cards.
pub classify_hand-shorthand :
    (c d : Card) (text text' position : Text)
    → 2 ≤ c.rank
    → c.rank ≤ 14
    → 2 ≤ d.rank
    → d.rank ≤ 14
    → card_text c ≡ ok text
    → card_text d ≡ ok text'
    → classify_hand (text ∷ text' ∷ []) position
      ≡ ok (class_of (text ∷ text' ∷ []) position (shorthand c d))
unfolding classify_hand
classify_hand-shorthand c d text text' position h k h' k' e e' =
    ap (λ m. m >>= λ hand. ok (class_of (text ∷ text' ∷ []) position hand))
      (hand_notation-shorthand c d text text' h k h' k' e e')

same_suit-swap : (s t : Suit) → same_suit s t ≡ same_suit t s
same_suit-swap s t =
    sym (same_suit_code s t) ∙ ==_swap (suit_code s) (suit_code t) ∙ same_suit_code t s

shorthand-swap : (c d : Card) → shorthand d c ≡ shorthand c d
shorthand-swap c d =
    let high : max d.rank c.rank ≡ max c.rank d.rank = omega arith in
    let low : min d.rank c.rank ≡ min c.rank d.rank = omega arith in
    rw (high, low, ==_swap d.rank c.rank, same_suit-swap d.suit c.suit) refl

category_score_bound : (category : HandCategory) → category_score category ≤ 6
category_score_bound navy = omega arith
category_score_bound red = omega arith
category_score_bound yellow = omega arith
category_score_bound green = omega arith
category_score_bound blue = omega arith
category_score_bound white = omega arith
category_score_bound gray = omega arith

abbrev pub SameClass : HandClass → Result HandClass → Type 0
SameClass k =
    Yields (λ (l : HandClass). (l.category ≡ k.category) × (l.score ≡ k.score) × (l.score ≤ 6))

class_of-same :
    (cards cards' : List Text) (position hand hand' : Text)
    → hand' ≡ hand
    → SameClass (class_of cards position hand) (ok (class_of cards' position hand'))
unfolding class_of
class_of-same cards cards' position hand hand' e = (
  class_of cards' position hand',
  refl,
  (
    ap (find_category all_categories) e,
    ap (λ h. category_score (find_category all_categories h)) e,
    category_score_bound (find_category all_categories hand'),
  ),
)

-- The order of the cards.
pub classify_hand-swap :
    (c d : Card) (text text' position : Text)
    → 2 ≤ c.rank
    → c.rank ≤ 14
    → 2 ≤ d.rank
    → d.rank ≤ 14
    → card_text c ≡ ok text
    → card_text d ≡ ok text'
    → Yields
        (λ k. SameClass k (classify_hand (text' ∷ text ∷ []) position))
        (classify_hand (text ∷ text' ∷ []) position)
classify_hand-swap c d text text' position h k h' k' e e' = (
  class_of (text ∷ text' ∷ []) position (shorthand c d),
  classify_hand-shorthand c d text text' position h k h' k' e e',
  swapped,
)
  where
    swapped :
        SameClass
          (class_of (text ∷ text' ∷ []) position (shorthand c d))
          (classify_hand (text' ∷ text ∷ []) position)
    swapped =
        subst (SameClass (class_of (text ∷ text' ∷ []) position (shorthand c d)))
          (sym (classify_hand-shorthand d c text' text position h' k' h k e' e))
          (class_of-same (text ∷ text' ∷ []) (text' ∷ text ∷ []) position (shorthand c d)
            (shorthand d c) (shorthand-swap c d))
