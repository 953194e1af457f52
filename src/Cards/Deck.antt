-- ===== src/Cards/Deck.antt =====
-- The full deck, and dealing from it.
use adk_poker.Base.{ℕ, ◌+◌, ◌≤◌, ◌<◌, ◌≡◌, refl, ◌∙◌, List, [], ◌∷◌, arith, length, if◌then◌else◌}
use adk_poker.Result.{Yields, bind-Yields}
use adk_poker.Cards.{
  Suit, Card, hearts, diamonds, clubs, spades, same_card, append_suits, all_suits, all_ranks,
  reset_deck, deal_card,
}

-- How often a card is in a list.
abbrev pub copies : Card → List Card → ℕ
copies c [] = 0
copies c (d ∷ cards) = (if same_card c d then 1 else 0) + copies c cards

copies-full :
    (rank : ℕ) (suit : Suit)
    → 2 ≤ rank
    → rank ≤ 14
    → Yields
        (λ cards. copies (record { rank = rank; suit = suit }) cards ≡ 1)
        (append_suits all_suits all_ranks [])
unfolding append_suits
copies-full rank hearts h k = (_, refl, ground arith)
copies-full rank diamonds h k = (_, refl, ground arith)
copies-full rank clubs h k = (_, refl, ground arith)
copies-full rank spades h k = (_, refl, ground arith)

-- Whatever the shuffle, if it keeps how often each card is in the deck, a reset deck has every
-- card from 2 to the ace of every suit exactly once.
pub reset_deck-copies :
    (shuffle : List Card → List Card)
    → ((c : Card) (cards : List Card) → copies c (shuffle cards) ≡ copies c cards)
    → (rank : ℕ) (suit : Suit) → 2 ≤ rank
    → rank ≤ 14
    → Yields (λ deck. copies (record { rank = rank; suit = suit }) deck ≡ 1) (reset_deck shuffle)
unfolding reset_deck
reset_deck-copies shuffle keeps rank suit h k =
    bind-Yields _ _ _ _ (copies-full rank suit h k)
      λ cards once. (shuffle cards, refl, keeps _ cards ∙ once)

-- From a deck that is not empty a card is dealt: that card leaves the deck, and all others stay.
pub deal_card-copies :
    (deck : List Card)
    → 0 < length deck
    → Yields (λ r. (c : Card) → copies c r.1 + copies c (r.0 ∷ []) ≡ copies c deck) (deal_card deck)
unfolding deal_card
deal_card-copies [] h = absurd (omega arith)
deal_card-copies (d ∷ []) h = ((d, []), refl, λ c. omega arith)
deal_card-copies (d ∷ e ∷ cards) h =
    let (r, run, k) = deal_card-copies (e ∷ cards) (omega arith) in
    ((r.0, d ∷ r.1), rw run refl, λ c. omega (arith, k c))
