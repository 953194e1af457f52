-- ===== src/Cards/Text.antt =====
-- The text of a card: `Card.__str__` of poker/game_models.py, with its two tables.
use adk_poker.Base.{ℕ, [], ◌∷◌, ◌++◌, Text, codes}
use adk_poker.Base.Dict.{Dict, lookup}
use adk_poker.Result.{Result, ok, or_raise, key_error, ◌>>=◌}
use adk_poker.Cards.{Suit, Card, hearts, diamonds, clubs, spades}

-- `SUIT_SYMBOLS`
abbrev pub suit_symbol : Suit → Text
suit_symbol hearts = codes "♥"
suit_symbol diamonds = codes "♦"
suit_symbol clubs = codes "♣"
suit_symbol spades = codes "♠"

-- `RANK_NAMES`
abbrev pub rank_names : Dict Text
rank_names =
    (2, codes "2")
    ∷ (3, codes "3")
    ∷ (4, codes "4")
    ∷ (5, codes "5")
    ∷ (6, codes "6")
    ∷ (7, codes "7")
    ∷ (8, codes "8")
    ∷ (9, codes "9")
    ∷ (10, codes "10")
    ∷ (11, codes "J")
    ∷ (12, codes "Q")
    ∷ (13, codes "K")
    ∷ (14, codes "A")
    ∷ []

-- `Card.rank_name`
unfoldable pub rank_name : ℕ → Result Text
rank_name rank = or_raise (lookup rank rank_names) key_error

-- `Card.__str__`
unfoldable pub card_text : Card → Result Text
unfolding rank_name
card_text card = do name ← rank_name card.rank; ok (name ++ suit_symbol card.suit)
