-- ===== src/Flop/Printed.antt =====
-- `evaluate_hand` of agents/team1_agent/flop_strategy_agent/tools/hand_evaluator.py on the texts that
-- `Card.__str__` of poker/game_models.py prints.
use adk_poker.Base.{
  ℕ, suc, ◌-◌, ◌≤◌, ◌≡◌, refl, ap, Bool, true, false, ◌&&◌, List, [], ◌∷◌, ◌++◌, map, arith, ◌==◌,
  leb, length, length-map, length-append, get_elem?, every, every-contains, All, All-append, some,
  none, Text, same_text, same_text-eq,
}
use adk_poker.Result.{Result, ok, raise, traverse, ◌>>=◌}
use adk_poker.Cards.{Suit, Card, hearts, diamonds, clubs, spades, all_ranks}
use adk_poker.Cards.Text.{card_text}
use adk_poker.Evaluator.{combinations}
use adk_poker.Evaluator.Choices.{combinations-length, combinations_nonempty, All-combinations}
use adk_poker.Tutorial.RoundTrip.{IsCard, Prints}
use adk_poker.Flop.Rank.{Letters, rank_letters, parse_letters, index_of_rank, rank_and_kickers}
use adk_poker.Flop.Total.{HasIndex, Succeeds, rank_and_kickers-Succeeds}
use adk_poker.Flop.Evaluate.{
  Best, hand_report, reported, reply_of, reply_to, search_highest, evaluate_flop_hand,
}
use adk_poker.Flop.Highest.{IsHighest, search_highest-IsHighest}

-- The letters of a card.
abbrev pub suit_char : Suit → ℕ
suit_char hearts = b'h'
suit_char diamonds = b'd'
suit_char clubs = b'c'
suit_char spades = b's'

unfoldable pub rank_text : ℕ → Text
rank_text rank = elim (get_elem? rank_letters (rank - 2)) [ none ↦ [] | some c ↦ c ∷ [] ]

abbrev pub letters_of : Card → Letters
letters_of c = record { rank = rank_text c.rank; suit = suit_char c.suit }

abbrev same_letters : Letters → Letters → Bool
same_letters a b = same_text a.rank b.rank && a.suit == b.suit

same_letters-eq : (a b : Letters) → same_letters a b ≡ true → a ≡ b
same_letters-eq a b h =
    let r : a.rank ≡ b.rank = same_text-eq a.rank b.rank (ground arith) in
    let s : a.suit ≡ b.suit = ground arith in λ i. record { rank = r i; suit = s i }

abbrev gives_letters : Result Letters → Letters → Bool
gives_letters (ok a) b = same_letters a b
gives_letters (raise e) b = false

abbrev gives_index : Result ℕ → ℕ → Bool
gives_index (ok i) n = i == n
gives_index (raise e) n = false

gives_letters-eq : (m : Result Letters) (b : Letters) → gives_letters m b ≡ true → m ≡ ok b
gives_letters-eq (ok a) b h = ap ok (same_letters-eq a b h)
gives_letters-eq (raise e) b h = cc

gives_index-eq : (m : Result ℕ) (n : ℕ) → gives_index m n ≡ true → m ≡ ok n
gives_index-eq (ok i) n h = ground arith
gives_index-eq (raise e) n h = cc

abbrev parses : Suit → ℕ → Bool
parses suit rank =
    let c : Card = record { rank = rank; suit = suit } in
    gives_letters (card_text c >>= parse_letters) (letters_of c)

abbrev has_index : ℕ → Bool
has_index rank = gives_index (index_of_rank (rank_text rank)) (rank - 2)

suit_parses : (suit : Suit) → every (parses suit) all_ranks ≡ true
unfolding parse_letters card_text rank_text
suit_parses hearts = refl
suit_parses diamonds = refl
suit_parses clubs = refl
suit_parses spades = refl

ranks_have_index : every has_index all_ranks ≡ true
unfolding index_of_rank rank_text
ranks_have_index = refl

-- The index of a card's rank is the rank, counted from the two.
pub letters_of-index : (c : Card) → IsCard c → index_of_rank (letters_of c).rank ≡ ok (c.rank - 2)
letters_of-index c h =
    gives_index-eq _ _ (every-contains has_index all_ranks c.rank ranks_have_index (ground arith))

pub letters_of-HasIndex :
    (cards : List Card) → All IsCard cards → All HasIndex (map letters_of cards)
letters_of-HasIndex [] h = tt
letters_of-HasIndex (c ∷ cards) h =
    ((c.rank - 2, letters_of-index c h.0), letters_of-HasIndex cards h.1)

parse_printed :
    (c : Card) (t : Text) → IsCard c → card_text c ≡ ok t → parse_letters t ≡ ok (letters_of c)
parse_printed c t h e =
    let read : parses c.suit c.rank ≡ true =
      every-contains (parses c.suit) all_ranks c.rank (suit_parses c.suit) (ground arith) in
    gives_letters-eq (parse_letters t) (letters_of c) (rw e at read)

parse_all :
    (cards : List Card) (texts : List Text)
    → All IsCard cards
    → Prints cards texts
    → traverse parse_letters texts ≡ ok (map letters_of cards)
parse_all [] [] h p = refl
parse_all [] (t ∷ texts) h p = elim p [ ]
parse_all (c ∷ cards) [] h p = elim p [ ]
parse_all (c ∷ cards) (t ∷ texts) h p =
    rw (parse_printed c t h.0 p.0, parse_all cards texts h.1 p.1)

length-Prints :
    (cards : List Card) (texts : List Text) → Prints cards texts → length texts ≡ length cards
length-Prints [] [] p = refl
length-Prints [] (t ∷ texts) p = elim p [ ]
length-Prints (c ∷ cards) [] p = elim p [ ]
length-Prints (c ∷ cards) (t ∷ texts) p = ap suc (length-Prints cards texts p.1)

fives-Succeed :
    (fives : List (List Letters))
    → All (λ five. length five ≡ 5) fives
    → All (All HasIndex) fives
    → All (λ five. Succeeds (rank_and_kickers five)) fives
fives-Succeed [] n h = tt
fives-Succeed (five ∷ fives) n h =
    (rank_and_kickers-Succeeds five n.0 h.0, fives-Succeed fives n.1 h.1)

search_letters :
    (cards : List Letters)
    → 5 ≤ length cards
    → All HasIndex cards
    → (best : Best) × (search_highest (combinations cards 5) none ≡ ok (some best))
      × IsHighest (combinations cards 5) best
search_letters cards n h =
    search_highest-IsHighest (combinations cards 5)
      (fives-Succeed (combinations cards 5) (combinations-length cards 5)
        (All-combinations HasIndex cards 5 h))
      (combinations_nonempty cards 5 n)

-- For two printed hole cards and a printed board of three to five cards, evaluate_hand of the flop
-- tools reports a hand and never raises: it is the hand of a choice of five of the cards, and no
-- choice of five has a higher tuple of rank, primary, secondary and kickers.
pub evaluate_flop_hand-IsHighest :
    (hole board : List Card) (yours community : List Text)
    → All IsCard hole
    → All IsCard board
    → Prints hole yours
    → Prints board community
    → length hole ≡ 2
    → 3 ≤ length board
    → length board ≤ 5
    → (best : Best) × (evaluate_flop_hand yours community ≡ ok (reported (hand_report best)))
      × IsHighest (combinations (map letters_of hole ++ map letters_of board) 5) best
unfolding evaluate_flop_hand reply_to reply_of
evaluate_flop_hand-IsHighest hole board yours community h k p q two three five =
    let n = length-Prints hole yours p in
    let m = length-Prints board community q in
    let cards = map letters_of hole ++ map letters_of board in
    let (best, run, high) =
      search_letters cards
        (omega (
          arith,
          length-append (map letters_of hole) (map letters_of board),
          length-map letters_of hole,
          length-map letters_of board,
        ))
        (All-append HasIndex (map letters_of hole) (map letters_of board)
          (letters_of-HasIndex hole h) (letters_of-HasIndex board k)) in
    let guard : (leb 3 (length community) && leb (length community) 5) ≡ true = ground arith in
    let pair : (length yours == 2) ≡ true = ground arith in
    (
      best,
      rw (pair, guard, parse_all hole yours h p, parse_all board community k q, run) refl,
      high,
    )
