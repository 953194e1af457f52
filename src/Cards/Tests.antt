-- ===== src/Cards/Tests.antt =====
-- A deck that is not shuffled.
use adk_poker.Base.{◌≡◌, refl, List, [], ◌∷◌, arith}
use adk_poker.Result.{Yields}
use adk_poker.Cards.{Card, hearts, spades, reset_deck}
use adk_poker.Cards.Deck.{copies, reset_deck-copies}

abbrev unshuffled : List Card → List Card
unshuffled cards = cards

abbrev two_cards : List Card
two_cards = record { rank = 9; suit = hearts } ∷ record { rank = 4; suit = spades } ∷ []

reset_deck-copies_example :
    Yields (λ deck. copies (record { rank = 14; suit = spades }) deck ≡ 1) (reset_deck unshuffled)
reset_deck-copies_example =
    reset_deck-copies unshuffled (λ c cards. refl) 14 spades (omega arith) (omega arith)
