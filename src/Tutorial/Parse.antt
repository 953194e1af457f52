-- ===== src/Tutorial/Parse.antt =====
-- Reading cards from text: `_parse_card` and `_parse_cards` of
-- tutorial_agents/agent_with_tool/hand_evaluator_tool.py.
use adk_poker.Base.{
  ℕ, Bool, true, false, List, [], ◌∷◌, map, ◌==◌, if◌then◌else◌, contains, Option, none, some, Text,
  codes, is_empty, strip, remove, to_lower, to_upper, last_of, drop_last, text_lookup,
}
use adk_poker.Base.Dict.{lookup}
use adk_poker.Result.{Result, ok, raise, value_error, or_raise, traverse, ◌>>=◌}
use adk_poker.Cards.{Suit, Card, hearts, diamonds, clubs, spades, new_card, same_card}

-- `suit_symbol_map`, in its order: ♠ ♤ ♥ ♡ ♦ ♢ ♣ ♧
abbrev pub suit_symbol_map : List (ℕ × Suit)
suit_symbol_map =
    (9824, spades)
    ∷ (9828, spades)
    ∷ (9829, hearts)
    ∷ (9825, hearts)
    ∷ (9830, diamonds)
    ∷ (9826, diamonds)
    ∷ (9827, clubs)
    ∷ (9831, clubs)
    ∷ []

abbrev pub suit_ascii_map : List (ℕ × Suit)
suit_ascii_map = (b's', spades) ∷ (b'h', hearts) ∷ (b'd', diamonds) ∷ (b'c', clubs) ∷ []

abbrev pub rank_map : List (Text × ℕ)
rank_map =
    (codes "2", 2)
    ∷ (codes "3", 3)
    ∷ (codes "4", 4)
    ∷ (codes "5", 5)
    ∷ (codes "6", 6)
    ∷ (codes "7", 7)
    ∷ (codes "8", 8)
    ∷ (codes "9", 9)
    ∷ (codes "10", 10)
    ∷ (codes "T", 10)
    ∷ (codes "J", 11)
    ∷ (codes "Q", 12)
    ∷ (codes "K", 13)
    ∷ (codes "A", 14)
    ∷ []

-- The loop over the symbols: the first that is in the text.
unfoldable pub find_symbol : List (ℕ × Suit) → Text → Option (ℕ × Suit)
find_symbol [] text = none
find_symbol ((sym, suit) ∷ symbols) text =
    let rest = find_symbol symbols text in if contains sym text then some (sym, suit) else rest

-- Without a symbol, the last character is the suit.
unfoldable pub ascii_card : Text → Result (Suit × Text)
ascii_card [] = raise value_error
ascii_card (c ∷ s) = do
  suit ← or_raise (lookup (to_lower (last_of c s)) suit_ascii_map) value_error
  ok (suit, drop_last (c ∷ s))

-- The suit, and the text of the rank.
unfoldable pub split_card : Option (ℕ × Suit) → Text → Result (Suit × Text)
unfolding ascii_card
split_card (some (sym, suit)) text = ok (suit, remove sym text)
split_card none text = ascii_card text

-- `rank_str.lstrip("0")`
abbrev strip_zeros : Text → Text
strip_zeros [] = []
strip_zeros (c ∷ s) = let rest = strip_zeros s in if c == b'0' then rest else c ∷ s

-- `rank_str.lstrip("0") or "0"`, if it starts with a zero
abbrev normalize : Text → Text
normalize [] = []
normalize (c ∷ s) =
    let rest = strip_zeros s in
    if c == b'0' then (if is_empty rest then codes "0" else rest) else c ∷ s

unfoldable pub parse_rank : Text → Result ℕ
parse_rank [] = raise value_error
parse_rank (c ∷ s) = or_raise (text_lookup (normalize (map to_upper (c ∷ s))) rank_map) value_error

-- `_parse_card`
unfoldable pub parse_card : Text → Result Card
unfolding find_symbol split_card parse_rank new_card
parse_card card_text = do
  let text = remove b' ' (strip card_text)
  (suit, rank_str) ← split_card (find_symbol suit_symbol_map text) text
  rank ← parse_rank rank_str
  new_card rank suit

-- `len(set(parsed)) != len(parsed)`: some card is there twice.
abbrev pub has_card : Card → List Card → Bool
has_card c [] = false
has_card c (d ∷ cards) = let rest = has_card c cards in if same_card c d then true else rest

abbrev pub has_duplicate : List Card → Bool
has_duplicate [] = false
has_duplicate (c ∷ cards) =
    let rest = has_duplicate cards in if has_card c cards then true else rest

-- `_parse_cards`; an empty list parses to an empty list, as `None` does.
unfoldable pub parse_cards : List Text → Result (List Card)
unfolding parse_card
parse_cards cards = do
  parsed ← traverse parse_card cards
  if has_duplicate parsed then raise value_error else ok parsed
