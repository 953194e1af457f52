-- ===== src/Preflop/Letters.antt =====
-- What hand_classifier.py reads of a printed card: agents/team1_agent/preflop/tools/.
use adk_poker.Base.{
  ℕ, ◌≤◌, ◌≡◌, refl, sym, ap, ◌∙◌, inl, inr, Bool, true, false, ◌&&◌, [], ◌∷◌, arith, ◌==◌, every,
  every-contains, Bool-cases, none, some, Text, codes, same_text, same_text-eq, strip,
}
use adk_poker.Base.Dict.{Dict, lookup}
use adk_poker.Result.{Result, ok, raise}
use adk_poker.Cards.{Suit, Card, hearts, diamonds, clubs, spades, same_suit, all_ranks}
use adk_poker.Cards.Text.{card_text}
use adk_poker.Preflop.Classify.{strength_of, rank_of_text, suit_of_text}

-- The one-letter name of a rank.
abbrev letters : Dict Text
letters =
    (2, codes "2")
    ∷ (3, codes "3")
    ∷ (4, codes "4")
    ∷ (5, codes "5")
    ∷ (6, codes "6")
    ∷ (7, codes "7")
    ∷ (8, codes "8")
    ∷ (9, codes "9")
    ∷ (10, codes "T")
    ∷ (11, codes "J")
    ∷ (12, codes "Q")
    ∷ (13, codes "K")
    ∷ (14, codes "A")
    ∷ []

unfoldable pub letter : ℕ → Text
letter rank = elim (lookup rank letters) [ none ↦ [] | some name ↦ name ]

abbrev pub suit_code : Suit → ℕ
suit_code hearts = 9829
suit_code diamonds = 9830
suit_code clubs = 9827
suit_code spades = 9824

abbrev has_suit : Result ℕ → Suit → Bool
has_suit (ok n) suit = n == suit_code suit
has_suit (raise e) suit = false

abbrev is_read : Suit → ℕ → Result Text → Bool
is_read suit rank (raise e) = false
is_read suit rank (ok text) =
    same_text (rank_of_text (strip text)) (letter rank)
    && has_suit (suit_of_text (strip text)) suit
    && strength_of (letter rank) == rank

abbrev reads : Suit → ℕ → Bool
reads suit rank = is_read suit rank (card_text (record { rank = rank; suit = suit }))

suit_reads : (suit : Suit) → every (reads suit) all_ranks ≡ true
unfolding card_text letter strength_of
suit_reads hearts = refl
suit_reads diamonds = refl
suit_reads clubs = refl
suit_reads spades = refl

-- What is read of a card's text.
abbrev Read : Suit → ℕ → Text → Type 0
Read suit rank text =
    (rank_of_text (strip text) ≡ letter rank)
    × (suit_of_text (strip text) ≡ ok (suit_code suit))
    × (strength_of (letter rank) ≡ rank)

has_suit-eq : (m : Result ℕ) (suit : Suit) → has_suit m suit ≡ true → m ≡ ok (suit_code suit)
has_suit-eq (ok n) suit h = ground arith
has_suit-eq (raise e) suit h = cc

Read-text :
    (suit : Suit) (rank : ℕ) (text : Text)
    → is_read suit rank (ok text) ≡ true
    → Read suit rank text
Read-text suit rank text h = (
  same_text-eq (rank_of_text (strip text)) (letter rank) (ground arith),
  has_suit-eq (suit_of_text (strip text)) suit (ground arith),
  ground arith,
)

pub Read-card :
    (c : Card) (text : Text)
    → 2 ≤ c.rank
    → c.rank ≤ 14
    → card_text c ≡ ok text
    → Read c.suit c.rank text
Read-card c text h k e =
    let r : reads c.suit c.rank ≡ true =
      every-contains (reads c.suit) all_ranks c.rank (suit_reads c.suit) (ground arith) in
    Read-text c.suit c.rank text (rw e at r)

pub same_suit_code : (s t : Suit) → (suit_code s == suit_code t) ≡ same_suit s t
same_suit_code hearts t = elim t as (λ k. (suit_code hearts == suit_code k) ≡ same_suit hearts k) [
  | hearts ↦ refl
  | _ ↦ refl
]
same_suit_code diamonds t =
    elim t as (λ k. (suit_code diamonds == suit_code k) ≡ same_suit diamonds k) [
      | hearts ↦ refl
      | _ ↦ refl
    ]
same_suit_code clubs t = elim t as (λ k. (suit_code clubs == suit_code k) ≡ same_suit clubs k) [
  | hearts ↦ refl
  | _ ↦ refl
]
same_suit_code spades t = elim t as (λ k. (suit_code spades == suit_code k) ≡ same_suit spades k) [
  | hearts ↦ refl
  | _ ↦ refl
]

-- Letters are the same only of one rank.
pub letters_apart :
    (m n : ℕ)
    → strength_of (letter m) ≡ m
    → strength_of (letter n) ≡ n
    → (m == n) ≡ false
    → same_text (letter m) (letter n) ≡ false
letters_apart m n p q h = elim (Bool-cases (same_text (letter m) (letter n))) [
  | inl e ↦
      let same : m ≡ n = sym p ∙ ap strength_of (same_text-eq (letter m) (letter n) e) ∙ q in
      absurd (ground arith)
  | inr e ↦ e
]
