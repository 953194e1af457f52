-- ===== src/Tutorial/RoundTrip.antt =====
-- Cards printed by `Card.__str__` and read by `_parse_card` and `_parse_cards`.
use adk_poker.Base.{
  ℕ, ◌≤◌, ◌≡◌, refl, ap, Bool, true, false, List, [], ◌∷◌, arith, All, Text, every, every-contains,
  if◌then◌else◌,
}
use adk_poker.Result.{Result, ok, raise, value_error, Yields, traverse, ◌>>=◌}
use adk_poker.Cards.{
  same_suit-eq, Suit, Card, hearts, diamonds, clubs, spades, same_card, all_ranks,
}
use adk_poker.Cards.Text.{card_text}
use adk_poker.Tutorial.Parse.{parse_card, parse_cards, has_duplicate}

-- What `Card(rank, suit)` accepts.
abbrev pub IsCard : Card → Type 0
IsCard c = (2 ≤ c.rank) × (c.rank ≤ 14)

abbrev gives : Result Card → Card → Bool
gives (ok d) c = same_card d c
gives (raise e) c = false

abbrev reads_back : Suit → ℕ → Bool
reads_back suit rank =
    let c : Card = record { rank = rank; suit = suit } in
    gives (card_text c >>= λ text. parse_card text) c

same_card-eq : (c d : Card) → same_card c d ≡ true → c ≡ d
same_card-eq c d h =
    let r : c.rank ≡ d.rank = ground arith in
    let s : c.suit ≡ d.suit = same_suit-eq c.suit d.suit (ground arith) in
    λ i. record { rank = r i; suit = s i }

suit_reads : (suit : Suit) → every (reads_back suit) all_ranks ≡ true
unfolding parse_card card_text
suit_reads hearts = refl
suit_reads diamonds = refl
suit_reads clubs = refl
suit_reads spades = refl

gives-eq : (c : Card) (r : Result Card) → gives r c ≡ true → r ≡ ok c
gives-eq c (ok d) h = ap ok (same_card-eq d c h)
gives-eq c (raise e) h = cc

gives-Yields :
    (c : Card) (m : Result Text) (f : Text → Result Card)
    → gives (m >>= f) c ≡ true
    → Yields (λ text. f text ≡ ok c) m
gives-Yields c (ok text) f h = (text, refl, gives-eq c (f text) h)
gives-Yields c (raise e) f h = cc

-- A card of a rank from 2 to 14 is printed without an exception, and _parse_card reads the text
-- back as that card.
pub parse_card-card_text :
    (c : Card) → IsCard c → Yields (λ text. parse_card text ≡ ok c) (card_text c)
parse_card-card_text c h =
    gives-Yields c (card_text c) parse_card
      (every-contains (reads_back c.suit) all_ranks c.rank (suit_reads c.suit) (ground arith))

-- The texts of cards, one by one.
abbrev pub Prints : List Card → List Text → Type 0
Prints [] [] = Unit
Prints (c ∷ cards) (t ∷ texts) = (card_text c ≡ ok t) × Prints cards texts
Prints _ _ = ⊥

parse_each :
    (cards : List Card) (texts : List Text)
    → All IsCard cards
    → Prints cards texts
    → traverse parse_card texts ≡ ok cards
parse_each [] [] h p = refl
parse_each [] (t ∷ texts) h p = elim p [ ]
parse_each (c ∷ cards) [] h p = elim p [ ]
parse_each (c ∷ cards) (t ∷ texts) h p =
    let (t', e, k) = parse_card-card_text c h.0 in
    let same : parse_card t ≡ ok c = cc in rw (same, parse_each cards texts h.1 p.1)

-- Printed cards are read back in their order, if no card is there twice; otherwise they are
-- refused.
pub parse_cards-Prints :
    (cards : List Card) (texts : List Text)
    → All IsCard cards
    → Prints cards texts
    → parse_cards texts ≡ (if has_duplicate cards then raise value_error else ok cards)
unfolding parse_cards
parse_cards-Prints cards texts h p = rw (parse_each cards texts h p)
