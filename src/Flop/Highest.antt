-- ===== src/Flop/Highest.antt =====
-- The loop of `evaluate_hand` of
-- agents/team1_agent/flop_strategy_agent/tools/hand_evaluator.py over the choices of five cards.
use adk_poker.Base.{
  ℕ, suc, ◌<◌, ◌≡◌, refl, ◌∙◌, sym, ◌⊎◌, inl, inr, Bool, true, false, List, [], ◌∷◌, arith, ◌==◌,
  length, All, Bool-cases, none, some,
}
use adk_poker.Result.{ok}
use adk_poker.Flop.Rank.{Letters, Details, rank_and_kickers}
use adk_poker.Flop.Evaluate.{
  tuple_gt, padded_score, score_to_beat, Best, keep_higher, one_turn, search_highest,
}
use adk_poker.Flop.Total.{Succeeds}

tuple_gt_irrefl : (xs : List ℕ) → tuple_gt xs xs ≡ false
unfolding tuple_gt
tuple_gt_irrefl [] = refl
tuple_gt_irrefl (x ∷ xs) = ground (arith, tuple_gt_irrefl xs)

tuple_gt_asym : (xs ys : List ℕ) → tuple_gt xs ys ≡ true → tuple_gt ys xs ≡ false
unfolding tuple_gt
tuple_gt_asym [] ys h = cc
tuple_gt_asym (x ∷ xs) [] h = refl
tuple_gt_asym (x ∷ xs) (y ∷ ys) h = ground (arith, tuple_gt_asym xs ys)

-- "Not above" is transitive.
tuple_gt_trans :
    (xs ys zs : List ℕ) → tuple_gt xs ys ≡ false → tuple_gt ys zs ≡ false → tuple_gt xs zs ≡ false
unfolding tuple_gt
tuple_gt_trans [] ys zs h k = refl
tuple_gt_trans (x ∷ xs) [] zs h k = cc
tuple_gt_trans (x ∷ xs) (y ∷ ys) [] h k = cc
tuple_gt_trans (x ∷ xs) (y ∷ ys) (z ∷ zs) h k = ground (arith, tuple_gt_trans xs ys zs)

-- The score of `d` is above that of `e`.
abbrev pub outscores : Details → Details → Bool
outscores d e = tuple_gt (padded_score d) (padded_score e)

abbrev pub Among : List Letters → List (List Letters) → Type 0
Among cards [] = ⊥
Among cards (five ∷ fives) = (cards ≡ five) ⊎ Among cards fives

-- No choice scores above `d`.
abbrev pub Unmatched : Details → List (List Letters) → Type 0
Unmatched d = All (λ five. (e : Details) → rank_and_kickers five ≡ ok e → outscores e d ≡ false)

-- The details are those of the cards.
abbrev pub IsOwn : Best → Type 0
IsOwn best = rank_and_kickers best.cards ≡ ok best.details

keep_higher-cases :
    (best : Best) (five : List Letters) (d : Details)
    → ((keep_higher (some best) five d ≡ some (record { details = d; cards = five }))
        × (outscores best.details d ≡ false))
      ⊎ ((keep_higher (some best) five d ≡ some best) × (outscores d best.details ≡ false))
unfolding keep_higher score_to_beat
keep_higher-cases best five d = elim (Bool-cases (outscores d best.details)) [
  | inl e ↦ inl (rw e refl, tuple_gt_asym (padded_score d) (padded_score best.details) e)
  | inr e ↦ inr (rw e refl, e)
]

-- Before the first hand every score is above.
keep_higher-first :
    (five : List Letters) (d : Details)
    → keep_higher none five d ≡ some (record { details = d; cards = five })
unfolding keep_higher score_to_beat padded_score tuple_gt
keep_higher-first five d = let e : (suc d.hand_rank == 0) ≡ false = ground arith in ground arith

head-Unmatched :
    (d e : Details) (five : List Letters)
    → rank_and_kickers five ≡ ok e
    → outscores e d ≡ false
    → (s : Details) → rank_and_kickers five ≡ ok s
    → outscores s d ≡ false
head-Unmatched d e five q above s p = let same : ok e ≡ ok s = sym q ∙ p in cc

-- The loop from a hand `best`.
abbrev Reaches : List (List Letters) → Best → Type 0
Reaches fives best =
    (r : Best) × (search_highest fives (some best) ≡ ok (some r))
    × IsOwn r
    × (outscores best.details r.details ≡ false)
    × Unmatched r.details fives
    × ((r.cards ≡ best.cards) ⊎ Among r.cards fives)

search_highest-Reaches :
    (fives : List (List Letters)) (best : Best)
    → All (λ five. Succeeds (rank_and_kickers five)) fives
    → IsOwn best
    → Reaches fives best
unfolding search_highest one_turn
search_highest-Reaches [] best h own =
    (best, refl, own, tuple_gt_irrefl (padded_score best.details), tt, inl refl)
search_highest-Reaches (five ∷ fives) best h own =
    let (d, e) = h.0 in
    let next : Best = record { details = d; cards = five } in
    elim (keep_higher-cases best five d) [
      | inl (k, o) ↦
          let (r, run, rs, above, all, from) = search_highest-Reaches fives next h.1 e in
          (
            r,
            rw (e, k) run,
            rs,
            tuple_gt_trans (padded_score best.details) (padded_score d) (padded_score r.details) o
                above,
            (head-Unmatched r.details d five e above, all),
            elim from [ inl q ↦ inr (inl q) | inr a ↦ inr (inr a) ],
          )
      | inr (k, o) ↦
          let (r, run, rs, above, all, from) = search_highest-Reaches fives best h.1 own in
          let under =
            tuple_gt_trans (padded_score d) (padded_score best.details) (padded_score r.details) o
              above in
          (
            r,
            rw (e, k) run,
            rs,
            above,
            (head-Unmatched r.details d five e under, all),
            elim from [ inl q ↦ inl q | inr a ↦ inr (inr a) ],
          )
    ]

-- The best hand is one of the choices, and no choice scores above it.
abbrev pub IsHighest : List (List Letters) → Best → Type 0
IsHighest fives best = IsOwn best × Among best.cards fives × Unmatched best.details fives

pub search_highest-IsHighest :
    (fives : List (List Letters))
    → All (λ five. Succeeds (rank_and_kickers five)) fives
    → 0 < length fives
    → (best : Best) × (search_highest fives none ≡ ok (some best)) × IsHighest fives best
unfolding search_highest one_turn
search_highest-IsHighest [] h k = elim k [ ]
search_highest-IsHighest (five ∷ fives) h k =
    let (d, e) = h.0 in
    let (r, run, rs, above, all, from) =
      search_highest-Reaches fives (record { details = d; cards = five }) h.1 e in
    (
      r,
      rw (e, keep_higher-first five d) run,
      (
        rs,
        elim from [ inl q ↦ inl q | inr a ↦ inr a ],
        (head-Unmatched r.details d five e above, all),
      ),
    )
