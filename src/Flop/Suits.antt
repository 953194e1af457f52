-- ===== src/Flop/Suits.antt =====
-- The tests for a flush of poker/evaluator.py and of
-- agents/team1_agent/flop_strategy_agent/tools/hand_evaluator.py.
use adk_poker.Base.{
  ℕ, ◌≤◌, ◌≡◌, refl, ap, ◌∙◌, sym, ◌⊎◌, inl, inr, Bool, true, false, List, [], ◌∷◌, map, arith,
  ◌==◌, length, contains, every, Bool-cases, if◌then◌else◌,
}
use adk_poker.Cards.{Suit, Card, hearts, diamonds, clubs, spades, same_suit, same_suit-eq}
use adk_poker.Evaluator.{distinct, is_flush, insert_card, sort_cards}
use adk_poker.Flop.Printed.{suit_char}

-- All suits are `s`.
abbrev all_suit : Suit → List Card → Bool
all_suit s = every (λ (c : Card). same_suit s c.suit)

all_suit-insert_card :
    (s : Suit) (c : Card) (cards : List Card)
    → all_suit s (insert_card c cards) ≡ all_suit s (c ∷ cards)
unfolding insert_card
all_suit-insert_card s c [] = refl
all_suit-insert_card s c (d ∷ cards) = ground (arith, all_suit-insert_card s c cards)

all_suit-sort_cards :
    (s : Suit) (cards : List Card) → all_suit s (sort_cards cards) ≡ all_suit s cards
unfolding sort_cards
all_suit-sort_cards s [] = refl
all_suit-sort_cards s (c ∷ cards) =
    ground (arith, all_suit-insert_card s c (sort_cards cards), all_suit-sort_cards s cards)

same_suit_self : (s : Suit) → same_suit s s ≡ true
same_suit_self hearts = refl
same_suit_self diamonds = refl
same_suit_self clubs = refl
same_suit_self spades = refl

same_suit_sym : (s t : Suit) → same_suit s t ≡ same_suit t s
same_suit_sym hearts t = elim t as (λ k. same_suit hearts k ≡ same_suit k hearts) [
  | hearts ↦ refl
  | _ ↦ refl
]
same_suit_sym diamonds t = elim t as (λ k. same_suit diamonds k ≡ same_suit k diamonds) [
  | hearts ↦ refl
  | _ ↦ refl
]
same_suit_sym clubs t = elim t as (λ k. same_suit clubs k ≡ same_suit k clubs) [
  | hearts ↦ refl
  | _ ↦ refl
]
same_suit_sym spades t = elim t as (λ k. same_suit spades k ≡ same_suit k spades) [
  | hearts ↦ refl
  | _ ↦ refl
]

is_flush-all_suit : (c : Card) (cards : List Card) → is_flush (c ∷ cards) ≡ all_suit c.suit cards
unfolding is_flush
is_flush-all_suit c [] = refl
is_flush-all_suit c (d ∷ cards) = elim (Bool-cases (same_suit c.suit d.suit)) [
  | inl e ↦
      rw e (
        is_flush-all_suit d cards ∙ ap (λ s. all_suit s cards) (sym (same_suit-eq c.suit d.suit e)))
  | inr e ↦ rw e refl
]

not_two_suits :
    (c : Card) (cards : List Card)
    → all_suit hearts (c ∷ cards) ≡ true
    → all_suit spades (c ∷ cards) ≡ true
    → ⊥
not_two_suits c cards h k =
    let a : hearts ≡ c.suit = same_suit-eq hearts c.suit (ground (arith, h)) in
    let b : spades ≡ c.suit = same_suit-eq spades c.suit (ground (arith, k)) in cc

-- A flush, compared with another list of the same suits.
all_suit-moves :
    (c d : Card) (cards ds : List Card)
    → ((s : Suit) → all_suit s (d ∷ ds) ≡ all_suit s (c ∷ cards))
    → all_suit d.suit ds ≡ all_suit c.suit cards
all_suit-moves c d cards ds k = elim (Bool-cases (same_suit c.suit d.suit)) [
  | inl e ↦
      let l : all_suit c.suit ds ≡ all_suit c.suit cards =
        rw (e, same_suit_self c.suit) at (k c.suit) in
      ap (λ s. all_suit s ds) (sym (same_suit-eq c.suit d.suit e)) ∙ l
  | inr e ↦
      let l : false ≡ all_suit c.suit cards = rw (e, same_suit_self c.suit) at (k c.suit) in
      let m : all_suit d.suit ds ≡ false =
        rw (sym (same_suit_sym c.suit d.suit), e, same_suit_self d.suit) at (k d.suit) in
      m ∙ l
]

-- Sorting keeps a flush.
is_flush-sort_cards :
    (c : Card) (cards : List Card) → is_flush (sort_cards (c ∷ cards)) ≡ all_suit c.suit cards
is_flush-sort_cards c cards =
    of_sorted (sort_cards (c ∷ cards)) λ s. all_suit-sort_cards s (c ∷ cards)
  where
    of_sorted :
        (sorted : List Card)
        → ((s : Suit) → all_suit s sorted ≡ all_suit s (c ∷ cards))
        → is_flush sorted ≡ all_suit c.suit cards
    of_sorted [] k = absurd (not_two_suits c cards (sym (k hearts)) (sym (k spades)))
    of_sorted (d ∷ ds) k = is_flush-all_suit d ds ∙ all_suit-moves c d cards ds k

-- The set of the suits' letters has one member exactly in a flush.
distinct-cons :
    (x : ℕ) (xs : List ℕ)
    → distinct (x ∷ xs) ≡ (if contains x (distinct xs) then distinct xs else x ∷ distinct xs)
unfolding distinct
distinct-cons x xs = refl

abbrev all_equal : ℕ → List ℕ → Bool
all_equal x = every (λ y. y == x)

one_or_more :
    (x : ℕ) (xs : List ℕ)
    → ((all_equal x xs ≡ true) × (distinct (x ∷ xs) ≡ x ∷ []))
      ⊎ ((all_equal x xs ≡ false) × (2 ≤ length (distinct (x ∷ xs))))
unfolding distinct
one_or_more x [] = inl (refl, refl)
one_or_more x (y ∷ ys) = elim (one_or_more y ys) [
  | inl (a, e) ↦ elim (Bool-cases (y == x)) [
    | inl h ↦
        let q : y ≡ x = ground arith in
        inl (
          rw h (ap (λ z. all_equal z ys) (sym q) ∙ a),
          distinct-cons x (y ∷ ys) ∙ rw e (ground arith),
        )
    | inr h ↦ inr (rw h refl, rw (distinct-cons x (y ∷ ys), e) (ground arith))
  ]
  | inr (a, n) ↦ inr (
    elim (Bool-cases (y == x)) [
      | inl h ↦ let q : y ≡ x = ground arith in rw h (ap (λ z. all_equal z ys) (sym q) ∙ a)
      | inr h ↦ rw h refl
    ],
    rw (distinct-cons x (y ∷ ys)) (more (contains x (distinct (y ∷ ys))) (distinct (y ∷ ys)) n),
  )
]
  where
    more : (b : Bool) (zs : List ℕ) → 2 ≤ length zs → 2 ≤ length (if b then zs else x ∷ zs)
    more true zs h = h
    more false zs h = omega (arith, h)

suit_char-same : (s t : Suit) → (suit_char t == suit_char s) ≡ same_suit s t
suit_char-same hearts t = elim t as (λ k. (suit_char k == suit_char hearts) ≡ same_suit hearts k) [
  | hearts ↦ refl
  | _ ↦ refl
]
suit_char-same diamonds t =
    elim t as (λ k. (suit_char k == suit_char diamonds) ≡ same_suit diamonds k) [
      | hearts ↦ refl
      | _ ↦ refl
    ]
suit_char-same clubs t = elim t as (λ k. (suit_char k == suit_char clubs) ≡ same_suit clubs k) [
  | hearts ↦ refl
  | _ ↦ refl
]
suit_char-same spades t = elim t as (λ k. (suit_char k == suit_char spades) ≡ same_suit spades k) [
  | hearts ↦ refl
  | _ ↦ refl
]

abbrev pub suit_chars : List Card → List ℕ
suit_chars = map (λ (c : Card). suit_char c.suit)

all_equal-all_suit :
    (s : Suit) (cards : List Card) → all_equal (suit_char s) (suit_chars cards) ≡ all_suit s cards
all_equal-all_suit s [] = refl
all_equal-all_suit s (c ∷ cards) = rw (suit_char-same s c.suit, all_equal-all_suit s cards)

-- The two tests for a flush agree.
pub one_suit-is_flush :
    (c : Card) (cards : List Card)
    → (length (distinct (suit_chars (c ∷ cards))) == 1) ≡ is_flush (sort_cards (c ∷ cards))
one_suit-is_flush c cards =
    let f = is_flush-sort_cards c cards in
    let a = all_equal-all_suit c.suit cards in
    elim (one_or_more (suit_char c.suit) (suit_chars cards)) [
      | inl (h, e) ↦ rw e (sym (f ∙ sym a ∙ h))
      | inr (h, n) ↦ ground arith ∙ sym (f ∙ sym a ∙ h)
    ]
