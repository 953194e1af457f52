-- ===== src/Cards.antt =====
-- Cards and the deck: poker/game_models.py, classes Suit, Card and Deck. `random.shuffle` is not
-- the program's; it is the parameter `shuffle`, a function on lists of cards.
pub mod Deck
pub mod Text
mod Tests
use adk_poker.Base.{
  ◌≡◌, refl, ℕ, Bool, ◌&&◌, true, false, ◌||◌, List, [], ◌∷◌, ◌++◌, ltb, ◌==◌, if◌then◌else◌,
  length,
}
use adk_poker.Result.{Result, ok, raise, value_error, ◌>>=◌}

pub data Suit : Type 0 where
  hearts diamonds clubs spades : Suit

abbrev pub same_suit : Suit → Suit → Bool
same_suit hearts hearts = true
same_suit diamonds diamonds = true
same_suit clubs clubs = true
same_suit spades spades = true
same_suit _ _ = false

pub same_suit-eq : (s t : Suit) → same_suit s t ≡ true → s ≡ t
same_suit-eq hearts hearts h = refl
same_suit-eq diamonds diamonds h = refl
same_suit-eq clubs clubs h = refl
same_suit-eq spades spades h = refl
same_suit-eq _ _ h = cc

pub record Card : Type 0 where
  pub rank : ℕ
  pub suit : Suit

-- `Card(rank, suit)`
unfoldable pub new_card : ℕ → Suit → Result Card
new_card rank suit =
    if ltb rank 2 || ltb 14 rank
    then raise value_error
    else ok (record { rank = rank; suit = suit })

-- `Card.__eq__`, between cards.
abbrev pub same_card : Card → Card → Bool
same_card a b = a.rank == b.rank && same_suit a.suit b.suit

-- The two loops of `Deck.reset`: `Card(rank, suit)` is appended for each rank and suit in turn.
unfoldable pub append_ranks : Suit → List ℕ → List Card → Result (List Card)
unfolding new_card
append_ranks suit [] cards = ok cards
append_ranks suit (rank ∷ ranks) cards =
    new_card rank suit >>= λ card. append_ranks suit ranks (cards ++ card ∷ [])

unfoldable pub append_suits : List Suit → List ℕ → List Card → Result (List Card)
unfolding append_ranks
append_suits [] ranks cards = ok cards
append_suits (suit ∷ suits) ranks cards =
    append_ranks suit ranks cards >>= λ cards'. append_suits suits ranks cards'

abbrev pub all_suits : List Suit
all_suits = hearts ∷ diamonds ∷ clubs ∷ spades ∷ []

-- `range(2, 15)`
abbrev pub all_ranks : List ℕ
all_ranks = 2 ∷ 3 ∷ 4 ∷ 5 ∷ 6 ∷ 7 ∷ 8 ∷ 9 ∷ 10 ∷ 11 ∷ 12 ∷ 13 ∷ 14 ∷ []

-- `Deck.reset` with `Deck.shuffle` at its end.
unfoldable pub reset_deck : (List Card → List Card) → Result (List Card)
unfolding append_suits
reset_deck shuffle = append_suits all_suits all_ranks [] >>= λ cards. ok (shuffle cards)

-- `Deck.deal_card`: `pop` takes the last card.
unfoldable pub deal_card : List Card → Result (Card × List Card)
deal_card [] = raise value_error
deal_card (c ∷ []) = ok (c, [])
deal_card (c ∷ d ∷ cards) = deal_card (d ∷ cards) >>= λ (x, rest). ok (x, c ∷ rest)

-- `Deck.cards_remaining`
pub cards_remaining : List Card → ℕ
cards_remaining cards = length cards
