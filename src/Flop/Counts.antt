-- ===== src/Flop/Counts.antt =====
-- The counts of the ranks of five cards: `Counter` in poker/evaluator.py and in
-- agents/team1_agent/flop_strategy_agent/tools/hand_evaluator.py.
use adk_poker.Base.{
  ℕ, ◌+◌, ◌<◌, ◌≡◌, refl, ap, ◌∙◌, sym, inl, inr, Bool, true, false, List, [], ◌∷◌, map, arith,
  ◌==◌, leb, length, every, All, Bool-cases, if◌then◌else◌,
}
use adk_poker.Ranking.{same_ranks}
use adk_poker.Evaluator.{count_rank, counter_from, counts_of, sort_desc, insert_desc}
use adk_poker.Evaluator.Shape.{same_ranks-eq}
use adk_poker.Tutorial.Royal.{Descends}
use adk_poker.Flop.Rank.{ace_low, is_stepped, wheel_indices}
use adk_poker.Flop.Runs.{raised}
use adk_poker.Flop.Total.{total, total-counts_of}

abbrev raised_items : List (ℕ × ℕ) → List (ℕ × ℕ)
raised_items = map (λ ((k, n) : ℕ × ℕ). (k + 2, n))

count_rank-raised :
    (r : ℕ) (items : List (ℕ × ℕ))
    → count_rank (r + 2) (raised_items items) ≡ raised_items (count_rank r items)
unfolding count_rank
count_rank-raised r [] = refl
count_rank-raised r ((k, n) ∷ items) =
    let e : (r + 2 == k + 2) ≡ (r == k) = ground arith in
    elim (Bool-cases (r == k)) [ inl o ↦ rw (e, o) | inr o ↦ rw (e, o, count_rank-raised r items) ]

counter_from-raised :
    (items : List (ℕ × ℕ)) (xs : List ℕ)
    → counter_from (raised_items items) (raised xs) ≡ raised_items (counter_from items xs)
unfolding counter_from
counter_from-raised items [] = refl
counter_from-raised items (x ∷ xs) =
    ap (λ l. counter_from l (raised xs)) (count_rank-raised x items)
    ∙ counter_from-raised (count_rank x items) xs

numbers-raised_items :
    (items : List (ℕ × ℕ))
    → map (λ (e : ℕ × ℕ). e.1) (raised_items items) ≡ map (λ (e : ℕ × ℕ). e.1) items
numbers-raised_items [] = refl
numbers-raised_items (e ∷ items) = ap (◌∷◌ e.1) (numbers-raised_items items)

-- The counts do not depend on where the ranks start.
pub counts_of-raised :
    (xs : List ℕ) → counts_of (counter_from [] (raised xs)) ≡ counts_of (counter_from [] xs)
unfolding counts_of
counts_of-raised xs =
    rw (counter_from-raised [] xs) (ap sort_desc (numbers-raised_items (counter_from [] xs)))

-- Nor on the place of the ace in a wheel.
pub counts_of-ace_low :
    (xs : List ℕ) → counts_of (counter_from [] (ace_low xs)) ≡ counts_of (counter_from [] xs)
unfolding counts_of counter_from count_rank sort_desc insert_desc
counts_of-ace_low xs = elim (Bool-cases (is_stepped xs)) [
  | inl e ↦ rw e refl
  | inr e ↦ rw e (elim (Bool-cases (same_ranks xs wheel_indices)) [
    | inl w ↦
        rw w (ap (λ l. counts_of (counter_from [] l)) (sym (same_ranks-eq xs wheel_indices w)))
    | inr w ↦ rw w refl
  ])
]

abbrev Positive : List ℕ → Type 0
Positive = All (λ n. 0 < n)

count_rank-Positive :
    (r : ℕ) (items : List (ℕ × ℕ))
    → All (λ (e : ℕ × ℕ). 0 < e.1) items
    → All (λ (e : ℕ × ℕ). 0 < e.1) (count_rank r items)
unfolding count_rank
count_rank-Positive r [] h = (omega arith, tt)
count_rank-Positive r ((k, n) ∷ items) h = elim (Bool-cases (r == k)) [
  | inl o ↦ rw o (omega (arith, h.0), h.1)
  | inr o ↦ rw o (h.0, count_rank-Positive r items h.1)
]

counter_from-Positive :
    (items : List (ℕ × ℕ)) (xs : List ℕ)
    → All (λ (e : ℕ × ℕ). 0 < e.1) items
    → All (λ (e : ℕ × ℕ). 0 < e.1) (counter_from items xs)
unfolding counter_from
counter_from-Positive items [] h = h
counter_from-Positive items (x ∷ xs) h =
    counter_from-Positive (count_rank x items) xs (count_rank-Positive x items h)

numbers-Positive :
    (items : List (ℕ × ℕ))
    → All (λ (e : ℕ × ℕ). 0 < e.1) items
    → Positive (map (λ (e : ℕ × ℕ). e.1) items)
numbers-Positive [] h = tt
numbers-Positive (e ∷ items) h = (h.0, numbers-Positive items h.1)

insert_desc-Positive : (x : ℕ) (xs : List ℕ) → 0 < x → Positive xs → Positive (insert_desc x xs)
unfolding insert_desc
insert_desc-Positive x [] h k = (h, tt)
insert_desc-Positive x (y ∷ ys) h k = elim (Bool-cases (leb y x)) [
  | inl o ↦ rw o (h, k)
  | inr o ↦ rw o (k.0, insert_desc-Positive x ys h k.1)
]

sort_desc-Positive : (xs : List ℕ) → Positive xs → Positive (sort_desc xs)
unfolding sort_desc
sort_desc-Positive [] h = tt
sort_desc-Positive (x ∷ xs) h =
    insert_desc-Positive x (sort_desc xs) h.0 (sort_desc-Positive xs h.1)

insert_desc-Descends : (x : ℕ) (xs : List ℕ) → Descends xs → Descends (insert_desc x xs)
unfolding insert_desc
insert_desc-Descends x [] h = tt
insert_desc-Descends x (y ∷ []) h = ground arith
insert_desc-Descends x (y ∷ z ∷ xs) h = ground (arith, insert_desc-Descends x (z ∷ xs) h.1)

sort_desc-Descends : (xs : List ℕ) → Descends (sort_desc xs)
unfolding sort_desc
sort_desc-Descends [] = tt
sort_desc-Descends (x ∷ xs) = insert_desc-Descends x (sort_desc xs) (sort_desc-Descends xs)

-- The ways to write five as a falling sum.
abbrev pub partitions : List (List ℕ)
partitions =
    (5 ∷ [])
    ∷ (4 ∷ 1 ∷ [])
    ∷ (3 ∷ 2 ∷ [])
    ∷ (3 ∷ 1 ∷ 1 ∷ [])
    ∷ (2 ∷ 2 ∷ 1 ∷ [])
    ∷ (2 ∷ 1 ∷ 1 ∷ 1 ∷ [])
    ∷ (1 ∷ 1 ∷ 1 ∷ 1 ∷ 1 ∷ [])
    ∷ []

abbrev occurs : List ℕ → List (List ℕ) → Bool
occurs xs [] = false
occurs xs (ys ∷ rest) = let more = occurs xs rest in if same_ranks xs ys then true else more

abbrev pub is_partition : List ℕ → Bool
is_partition counts = occurs counts partitions

every-occurs :
    (p : List ℕ → Bool) (xs : List ℕ) (lists : List (List ℕ))
    → every p lists ≡ true
    → occurs xs lists ≡ true
    → p xs ≡ true
every-occurs p xs [] h k = cc
every-occurs p xs (ys ∷ lists) h k = elim (Bool-cases (same_ranks xs ys)) [
  | inl e ↦ ap p (same_ranks-eq xs ys e) ∙ ground (arith, h)
  | inr e ↦ every-occurs p xs lists (ground (arith, h)) (rw e at k)
]

-- What holds of the seven holds of the counts.
pub partition-every :
    (p : List ℕ → Bool) (counts : List ℕ)
    → every p partitions ≡ true
    → is_partition counts ≡ true
    → p counts ≡ true
partition-every p counts h k = every-occurs p counts partitions h k

five_partition : (xs : List ℕ) → Descends xs → Positive xs → total xs ≡ 5 → is_partition xs ≡ true
five_partition [] h k t = absurd (omega arith)
five_partition (a ∷ []) h k t = ground (arith, h, k, t)
five_partition (a ∷ b ∷ []) h k t = ground (arith, h, k, t)
five_partition (a ∷ b ∷ c ∷ []) h k t = ground (arith, h, k, t)
five_partition (a ∷ b ∷ c ∷ d ∷ []) h k t = ground (arith, h, k, t)
five_partition (a ∷ b ∷ c ∷ d ∷ e ∷ []) h k t = ground (arith, h, k, t)
five_partition (a ∷ b ∷ c ∷ d ∷ e ∷ f ∷ xs) h k t = absurd (omega (arith, h, k, t))

pub counts_of-partition :
    (xs : List ℕ) → length xs ≡ 5 → is_partition (counts_of (counter_from [] xs)) ≡ true
unfolding counts_of
counts_of-partition xs h =
    let numbers = map (λ (e : ℕ × ℕ). e.1) (counter_from [] xs) in
    five_partition (sort_desc numbers) (sort_desc-Descends numbers)
      (sort_desc-Positive numbers
        (numbers-Positive (counter_from [] xs) (counter_from-Positive [] xs tt)))
      (total-counts_of xs ∙ h)
