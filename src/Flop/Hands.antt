-- ===== src/Flop/Hands.antt =====
-- `evaluate_hand` of agents/team1_agent/flop_strategy_agent/tools/hand_evaluator.py beside
-- `HandEvaluator.evaluate_hand` of poker/evaluator.py.
use adk_poker.Base.{
  ℕ, zero, suc, ◌≤◌, ◌≡◌, refl, ap, ◌∙◌, sym, inl, inr, false, List, [], ◌∷◌, ◌++◌, map, arith,
  length, length-append, All, All-append, some, Text,
}
use mathlib.Core.Path.{subst}
use adk_poker.Result.{ok}
use adk_poker.Cards.{Card}
use adk_poker.Ranking.{HandResult, rank_value, hand_lt}
use adk_poker.Evaluator.{combinations, evaluate_hand}
use adk_poker.Evaluator.Choices.{combinations-length, All-combinations}
use adk_poker.Evaluator.Best.{Unbeaten, Attained, evaluate_hand-Best}
use adk_poker.Tutorial.RoundTrip.{IsCard, Prints}
use adk_poker.Flop.Rank.{Letters, Details, rank_and_kickers}
use adk_poker.Flop.Evaluate.{
  tuple_gt, padded_score, HandReport, reported, hand_report, evaluate_flop_hand,
}
use adk_poker.Flop.Highest.{Among, Unmatched, outscores}
use adk_poker.Flop.Printed.{letters_of, evaluate_flop_hand-IsHighest}
use adk_poker.Flop.Category.{value_of}
use adk_poker.Flop.Agrees.{rank_and_kickers-evaluate_five_cards}

map-append {ℓ κ} :
    {A : Type ℓ} {B : Type κ} (f : A → B) (xs ys : List A) → map f (xs ++ ys) ≡ map f xs ++ map f ys
map-append f [] ys = refl
map-append f (x ∷ xs) ys = ap (◌∷◌ (f x)) (map-append f xs ys)

map-cons {ℓ κ} :
    {A : Type ℓ} {B : Type κ} (f : A → B) (x : A) (lists : List (List A))
    → map (map f) (map (◌∷◌ x) lists) ≡ map (◌∷◌ (f x)) (map (map f) lists)
map-cons f x [] = refl
map-cons f x (xs ∷ lists) = ap (◌∷◌ (f x ∷ map f xs)) (map-cons f x lists)

-- The choices among the images are the images of the choices.
combinations-map {ℓ κ} :
    {A : Type ℓ} {B : Type κ} (f : A → B) (xs : List A) (n : ℕ)
    → combinations (map f xs) n ≡ map (map f) (combinations xs n)
unfolding combinations
combinations-map f xs zero = refl
combinations-map f [] (suc n) = refl
combinations-map f (x ∷ xs) (suc n) =
    rw (combinations-map f xs n, combinations-map f xs (suc n))
      (ap (λ l. l ++ map (map f) (combinations xs (suc n))) (sym (map-cons f x (combinations xs n)))
        ∙ sym (map-append (map f) (map (◌∷◌ x) (combinations xs n)) (combinations xs (suc n))))

hand_lt-value : (r s : HandResult) → hand_lt r s ≡ false → value_of s ≤ value_of r
unfolding hand_lt
hand_lt-value r s h =
    let above : rank_value s.rank ≤ rank_value r.rank = ground (arith, h) in omega (arith, above)

outscores-rank : (d e : Details) → outscores d e ≡ false → d.hand_rank ≤ e.hand_rank
unfolding tuple_gt padded_score
outscores-rank d e h = ground (arith, h)

module _ (fives : List (List Card)) where
  abbrev Hands : Type 0
  Hands = All (λ five. length five ≡ 5) fives × All (All IsCard) fives

-- Details of one of the choices are not above an unbeaten hand.
details-below :
    (fives : List (List Card)) (x : List Letters) (d : Details) (r : HandResult)
    → Hands fives
    → Among x (map (map letters_of) fives)
    → rank_and_kickers x ≡ ok d
    → Unbeaten r fives
    → suc d.hand_rank ≤ value_of r
details-below [] x d r h a e u = elim a [ ]
details-below (five ∷ fives) x d r (n, k) (inl q) e u =
    let (s, d', run, run', same) = rank_and_kickers-evaluate_five_cards five n.0 k.0 in
    let eq : ok d' ≡ ok d = sym run' ∙ sym (ap rank_and_kickers q) ∙ e in
    let rank : d'.hand_rank ≡ d.hand_rank = cc in
    omega (arith, hand_lt-value r s (u.0 s run), same, rank)
details-below (five ∷ fives) x d r (n, k) (inr a) e u = details-below fives x d r (n.1, k.1) a e u.1

-- A hand of one of the choices is not above the highest details.
hand-below :
    (fives : List (List Card)) (d : Details) (r : HandResult)
    → Hands fives
    → Attained r fives
    → Unmatched d (map (map letters_of) fives)
    → value_of r ≤ suc d.hand_rank
hand-below [] d r h a u = elim a [ ]
hand-below (five ∷ fives) d r (n, k) (inl q) u =
    let (s, d', run, run', same) = rank_and_kickers-evaluate_five_cards five n.0 k.0 in
    let eq : ok s ≡ ok r = sym run ∙ q in
    let value : value_of s ≡ value_of r = cc in
    omega (arith, outscores-rank d' d (u.0 d' run'), same, value)
hand-below (five ∷ fives) d r (n, k) (inr a) u = hand-below fives d r (n.1, k.1) a u.1

-- For two printed hole cards and a printed board of three to five cards the flop tools and the
-- program's evaluator find hands of one rank: neither raises, and the reported rank is one less
-- than the value of the rank that the evaluator finds, where the royal flush counts as a straight
-- flush.
pub evaluate_flop_hand-evaluate_hand :
    (hole board : List Card) (yours community : List Text)
    → All IsCard hole
    → All IsCard board
    → Prints hole yours
    → Prints board community
    → length hole ≡ 2
    → 3 ≤ length board
    → length board ≤ 5
    → (report : HandReport) × (r : HandResult) × (evaluate_flop_hand yours community
        ≡ ok (reported report))
      × (evaluate_hand hole board ≡ ok (some r))
      × (suc report.hand_rank ≡ value_of r)
evaluate_flop_hand-evaluate_hand hole board yours community h k p q two three five =
    let (best, run, (own, among, unmatched)) =
      evaluate_flop_hand-IsHighest hole board yours community h k p q two three five in
    let (r, found, _, unbeaten, attained) =
      evaluate_hand-Best hole board (omega (arith, length-append hole board)) in
    let fives = combinations (hole ++ board) 5 in
    let hands : Hands fives = (
      combinations-length (hole ++ board) 5,
      All-combinations IsCard (hole ++ board) 5 (All-append IsCard hole board h k),
    ) in
    let same : combinations (map letters_of hole ++ map letters_of board) 5
        ≡ map (map letters_of) fives =
      ap (λ l. combinations l 5) (sym (map-append letters_of hole board))
      ∙ combinations-map letters_of (hole ++ board) 5 in
    let low =
      details-below fives best.cards best.details r hands (subst (Among best.cards) same among) own
        unbeaten in
    let high =
      hand-below fives best.details r hands attained
        (subst (Unmatched best.details) same unmatched) in
    (hand_report best, r, run, found, omega (arith, low, high))
