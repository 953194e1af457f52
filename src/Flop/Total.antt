-- ===== src/Flop/Total.antt =====
-- `_get_hand_rank_and_kickers` of
-- agents/team1_agent/flop_strategy_agent/tools/hand_evaluator.py on five cards of known ranks.
use adk_poker.Base.{
  ℕ, zero, suc, ◌+◌, ◌<◌, ◌≡◌, refl, ap, ◌∙◌, sym, inl, inr, Bool, List, [], ◌∷◌, map, arith, ◌==◌,
  ◌&&◌, length, length-map, sum_of, All, Bool-cases,
}
use adk_poker.Result.{Result, ok, first, traverse}
use adk_poker.Ranking.{same_ranks}
use adk_poker.Evaluator.{count_rank, counter_from, counts_of, sort_desc, insert_desc}
use adk_poker.Evaluator.Shape.{length-sort_desc, same_ranks-eq}
use adk_poker.Flop.Rank.{
  Letters, index_of_rank, is_run, ace_low, is_stepped, wheel_indices, insert_counted, sort_counted,
  ranks_by_count, nth, lower_details, counted_details, details_of, rank_and_kickers,
}

abbrev pub total : List ℕ → ℕ
total = sum_of (λ n. n)

abbrev counted : List (ℕ × ℕ) → ℕ
counted = sum_of (λ (e : ℕ × ℕ). e.1)

counted-count_rank :
    (r : ℕ) (items : List (ℕ × ℕ)) → counted (count_rank r items) ≡ suc (counted items)
unfolding count_rank
counted-count_rank r [] = refl
counted-count_rank r ((k, n) ∷ items) = ground (arith, counted-count_rank r items)

counted-counter_from :
    (items : List (ℕ × ℕ)) (ranks : List ℕ)
    → counted (counter_from items ranks) ≡ counted items + length ranks
unfolding counter_from
counted-counter_from items [] = omega arith
counted-counter_from items (r ∷ ranks) =
    omega (arith, counted-counter_from (count_rank r items) ranks, counted-count_rank r items)

total-insert_desc : (x : ℕ) (xs : List ℕ) → total (insert_desc x xs) ≡ x + total xs
unfolding insert_desc
total-insert_desc x [] = refl
total-insert_desc x (y ∷ ys) = ground (arith, total-insert_desc x ys)

total-sort_desc : (xs : List ℕ) → total (sort_desc xs) ≡ total xs
unfolding sort_desc
total-sort_desc [] = refl
total-sort_desc (x ∷ xs) = omega (arith, total-insert_desc x (sort_desc xs), total-sort_desc xs)

total-numbers : (items : List (ℕ × ℕ)) → total (map (λ (e : ℕ × ℕ). e.1) items) ≡ counted items
total-numbers [] = refl
total-numbers (e ∷ items) = omega (arith, total-numbers items)

-- The counts of a hand add up to its number of cards.
pub total-counts_of : (ranks : List ℕ) → total (counts_of (counter_from [] ranks)) ≡ length ranks
unfolding counts_of
total-counts_of ranks = omega (
  arith,
  total-sort_desc (map (λ (e : ℕ × ℕ). e.1) (counter_from [] ranks)),
  total-numbers (counter_from [] ranks),
  counted-counter_from [] ranks,
)

length-counts_of : (items : List (ℕ × ℕ)) → length (counts_of items) ≡ length items
unfolding counts_of
length-counts_of items =
    length-sort_desc (map (λ (e : ℕ × ℕ). e.1) items) ∙ length-map (λ (e : ℕ × ℕ). e.1) items

length-insert_counted :
    (e : ℕ × ℕ) (items : List (ℕ × ℕ)) → length (insert_counted e items) ≡ suc (length items)
unfolding insert_counted
length-insert_counted e [] = refl
length-insert_counted (k, n) ((j, m) ∷ items) = ground (arith, length-insert_counted (k, n) items)

length-sort_counted : (items : List (ℕ × ℕ)) → length (sort_counted items) ≡ length items
unfolding sort_counted
length-sort_counted [] = refl
length-sort_counted (e ∷ items) =
    omega (arith, length-insert_counted e (sort_counted items), length-sort_counted items)

pub length-ranks_by_count :
    (items : List (ℕ × ℕ)) → length (ranks_by_count items) ≡ length (counts_of items)
unfolding ranks_by_count
length-ranks_by_count items =
    length-map (λ (e : ℕ × ℕ). e.0) (sort_counted items)
    ∙ length-sort_counted items
    ∙ sym (length-counts_of items)

nth-ok : (xs : List ℕ) (i : ℕ) → i < length xs → (x : ℕ) × (nth xs i ≡ ok x)
nth-ok [] i h = absurd (omega arith)
nth-ok (x ∷ xs) zero h = (x, refl)
nth-ok (x ∷ xs) (suc i) h = nth-ok xs i (omega arith)

first-ok : (xs : List ℕ) → 0 < length xs → (x : ℕ) × (first xs ≡ ok x)
first-ok [] h = absurd (omega arith)
first-ok (x ∷ xs) h = (x, refl)

-- The call returns.
abbrev pub Succeeds {ℓ} : {A : Type ℓ} → Result A → Type ℓ
Succeeds {A = A} m = (a : A) × (m ≡ ok a)

module _ (fl st : Bool) (ranks sorted counts : List ℕ) (five : length ranks ≡ 5)
    (equal : length sorted ≡ length counts) (some_count : 0 < length counts) where
  lower_details-Succeeds : (most : ℕ) → Succeeds (lower_details fl st ranks sorted counts most)
  unfolding lower_details
  lower_details-Succeeds most =
      let (top, t) = first-ok ranks (omega arith) in
      let (lead, l) = first-ok sorted (omega arith) in
      elim (Bool-cases fl) [
        | inl e ↦ rw e (_, refl)
        | inr e ↦ rw e (elim (Bool-cases st) [
          | inl e' ↦ rw (e', t) (_, refl)
          | inr e' ↦ rw e' (elim (Bool-cases (most == 3)) [
            | inl h ↦ rw (h, l) (_, refl)
            | inr h ↦ rw h (elim (Bool-cases (same_ranks counts (2 ∷ 2 ∷ 1 ∷ []))) [
              | inl k ↦
                  let three : length counts ≡ 3 = ap length (same_ranks-eq counts _ k) in
                  let (a, p) = nth-ok sorted 0 (omega arith) in
                  let (b, q) = nth-ok sorted 1 (omega arith) in
                  let (c, r) = nth-ok sorted 2 (omega arith) in rw (k, p, q, r) (_, refl)
              | inr k ↦ rw k (elim (Bool-cases (most == 2)) [
                | inl i ↦ rw (i, l) (_, refl)
                | inr i ↦ rw i (_, refl)
              ])
            ])
          ])
        ])
      ]

  counted_details-Succeeds :
      (most : ℕ)
      → (most ≡ 4 → 1 < length counts)
      → Succeeds (counted_details fl st ranks sorted counts most)
  unfolding counted_details
  counted_details-Succeeds most two = elim (Bool-cases (most == 4)) [
    | inl h ↦
        let (a, p) = nth-ok sorted 0 (omega (arith, two (ground arith))) in
        let (b, q) = nth-ok sorted 1 (omega (arith, two (ground arith))) in rw (h, p, q) (_, refl)
    | inr h ↦ rw h (elim (Bool-cases (same_ranks counts (3 ∷ 2 ∷ []))) [
      | inl k ↦
          let pair : length counts ≡ 2 = ap length (same_ranks-eq counts _ k) in
          let (a, p) = nth-ok sorted 0 (omega arith) in
          let (b, q) = nth-ok sorted 1 (omega arith) in rw (k, p, q) (_, refl)
      | inr k ↦ rw k (lower_details-Succeeds most)
    ])
  ]

-- Counts that add up to five are not empty, and four of them leave another.
five_counts :
    (counts : List ℕ)
    → total counts ≡ 5
    → (most : ℕ) × (first counts ≡ ok most) × (most ≡ 4 → 1 < length counts)
five_counts [] h = absurd (omega arith)
five_counts (n ∷ []) h = (n, refl, λ e. absurd (omega arith))
five_counts (n ∷ m ∷ counts) h = (n, refl, λ e. omega arith)

details_of-Succeeds :
    (fl st : Bool) (ranks : List ℕ) → length ranks ≡ 5 → Succeeds (details_of fl st ranks)
unfolding details_of
details_of-Succeeds fl st ranks five =
    let items = counter_from [] ranks in
    let (most, e, two) = five_counts (counts_of items) (total-counts_of ranks ∙ five) in
    let (top, t) = first-ok ranks (omega arith) in
    elim (Bool-cases (st && fl)) [
      | inl h ↦ rw (h, t) (_, refl)
      | inr h ↦
          rw (h, e)
            (counted_details-Succeeds fl st ranks (ranks_by_count items) (counts_of items) five
              (length-ranks_by_count items) (some_first (counts_of items) most e) most two)
    ]
  where
    some_first : (counts : List ℕ) (most : ℕ) → first counts ≡ ok most → 0 < length counts
    some_first [] most e = cc
    some_first (n ∷ counts) most e = omega arith

length-ace_low : (ranks : List ℕ) → length ranks ≡ 5 → length (ace_low ranks) ≡ 5
length-ace_low ranks h = elim (Bool-cases (is_stepped ranks)) [
  | inl e ↦ rw e h
  | inr e ↦
      rw e
        (elim (Bool-cases (same_ranks ranks wheel_indices)) [ inl k ↦ rw k refl | inr k ↦ rw k h ])
]

-- The ranks are letters of `RANK_MAP`.
abbrev pub HasIndex : Letters → Type 0
HasIndex c = Succeeds (index_of_rank c.rank)

pub indices-Succeeds :
    (hand : List Letters)
    → All HasIndex hand
    → (indices : List ℕ) × (traverse (λ (c : Letters). index_of_rank c.rank) hand ≡ ok indices)
      × (length indices ≡ length hand)
indices-Succeeds [] h = ([], refl, refl)
indices-Succeeds (c ∷ hand) h =
    let (i, e) = h.0 in
    let (indices, e', k) = indices-Succeeds hand h.1 in (i ∷ indices, rw (e, e') refl, ap suc k)

-- Five cards whose ranks are letters of RANK_MAP have a rank and kickers: the call never raises.
pub rank_and_kickers-Succeeds :
    (hand : List Letters) → length hand ≡ 5 → All HasIndex hand → Succeeds (rank_and_kickers hand)
unfolding rank_and_kickers
rank_and_kickers-Succeeds hand five h =
    let (indices, e, k) = indices-Succeeds hand h in
    rw (five, e)
      (details_of-Succeeds _ (is_run (sort_desc indices)) (ace_low (sort_desc indices))
        (length-ace_low (sort_desc indices) (length-sort_desc indices ∙ k ∙ five)))
