-- ===== src/Game/Showdown/Winners.antt =====
-- `determine_winner_ids` of `conduct_showdown`.
use mathlib.Core.Path.{subst}
use mathlib.Core.Option.{some-injective, none-ne-some}
use adk_poker.Evaluator.Shape.{same_ranks-eq}
use adk_poker.Base.{
  ℕ, ◌<◌, ◌≡◌, refl, ◌∙◌, sym, inl, inr, true, false, List, [], ◌∷◌, ◌++◌, length, length-append,
  contains, Option, some, All, All-append, arith, Bool-cases, Option-cases,
}
use adk_poker.Ranking.{HandResult, rank_value, same_ranks}
use adk_poker.Game.Pots.{
  kickers_gt, stronger, ties, Hands, hand_of, challenge, winners_from, determine_winner_ids,
}

kickers_gt_irrefl : (ks : List ℕ) → kickers_gt ks ks ≡ false
unfolding kickers_gt
kickers_gt_irrefl [] = refl
kickers_gt_irrefl (k ∷ ks) = ground (arith, kickers_gt_irrefl ks)

kickers_gt_trans :
    (ks ls ms : List ℕ)
    → kickers_gt ks ls ≡ false
    → kickers_gt ls ms ≡ false
    → kickers_gt ks ms ≡ false
unfolding kickers_gt
kickers_gt_trans [] ls ms h k = refl
kickers_gt_trans (k ∷ ks) [] ms h h' = cc
kickers_gt_trans (k ∷ ks) (l ∷ ls) [] h h' = cc
kickers_gt_trans (k ∷ ks) (l ∷ ls) (m ∷ ms) h h' = ground (arith, kickers_gt_trans ks ls ms)

kickers_gt_asym : (ks ls : List ℕ) → kickers_gt ks ls ≡ true → kickers_gt ls ks ≡ false
unfolding kickers_gt
kickers_gt_asym [] ls h = cc
kickers_gt_asym (k ∷ ks) [] h = refl
kickers_gt_asym (k ∷ ks) (l ∷ ls) h = ground (arith, kickers_gt_asym ks ls)

kickers_gt-same : (ks ls : List ℕ) → same_ranks ks ls ≡ true → kickers_gt ks ls ≡ false
unfolding kickers_gt
kickers_gt-same [] ls h = refl
kickers_gt-same (k ∷ ks) [] h = cc
kickers_gt-same (k ∷ ks) (l ∷ ls) h = ground (arith, kickers_gt-same ks ls)

same_ranks_refl : (ks : List ℕ) → same_ranks ks ks ≡ true
same_ranks_refl [] = refl
same_ranks_refl (k ∷ ks) = ground (arith, same_ranks_refl ks)

stronger_irrefl : (a : HandResult) → stronger a a ≡ false
stronger_irrefl a = ground (arith, kickers_gt_irrefl a.kickers)

stronger_asym : (a b : HandResult) → stronger a b ≡ true → stronger b a ≡ false
stronger_asym a b h = ground (arith, kickers_gt_asym a.kickers b.kickers)

-- "Not stronger" is transitive.
stronger_trans :
    (a b c : HandResult) → stronger a b ≡ false → stronger b c ≡ false → stronger a c ≡ false
stronger_trans a b c h k = ground (arith, kickers_gt_trans a.kickers b.kickers c.kickers)

ties_refl : (a : HandResult) → ties a a ≡ true
ties_refl a = ground (arith, same_ranks_refl a.kickers)

true≢false : ¬ (true ≡ false)
true≢false h = cc

-- A winner's hand is as good as the best.
abbrev pub HoldsTie : Hands → HandResult → ℕ → Type 0
HoldsTie hands best pid = (h : HandResult) × (hand_of pid hands ≡ some h) × (ties h best ≡ true)

ties-stronger : (h a b : HandResult) → ties h a ≡ true → stronger h b ≡ stronger a b
ties-stronger h a b t =
    let ranks : rank_value h.rank ≡ rank_value a.rank = ground arith in
    let kickers : h.kickers ≡ a.kickers = same_ranks-eq h.kickers a.kickers (ground arith) in
    rw (ranks, kickers)

contains-append : (a : ℕ) (xs ys : List ℕ) → contains a xs ≡ true → contains a (xs ++ ys) ≡ true
contains-append a [] ys h = cc
contains-append a (x ∷ xs) ys h = ground (arith, contains-append a xs ys)

contains-append_last : (a : ℕ) (xs : List ℕ) → contains a (xs ++ a ∷ []) ≡ true
contains-append_last a [] = ground arith
contains-append_last a (x ∷ xs) = ground (arith, contains-append_last a xs)

-- A candidate is judged rightly: its hand is not stronger than the best, and if it is as good, the
-- candidate is among the winners.
abbrev pub JudgedWith : ℕ → HandResult → List ℕ → HandResult → Type 0
JudgedWith pid h winners best =
    (stronger h best ≡ false) × (ties h best ≡ true → contains pid winners ≡ true)

abbrev pub Judged : Hands → List ℕ → HandResult → ℕ → Type 0
Judged hands winners best pid =
    (h : HandResult) → hand_of pid hands ≡ some h → JudgedWith pid h winners best

-- Who has been judged rightly stays so, and the best hand only rises.
abbrev Keeps : List ℕ → HandResult → List ℕ → HandResult → Type 0
Keeps winners best winners' best' =
    (pid : ℕ) (h : HandResult) → JudgedWith pid h winners best → JudgedWith pid h winners' best'

abbrev Outcome : Hands → List ℕ × Option HandResult → (List ℕ → HandResult → Type 0) → Type 0
Outcome hands r P =
    (winners : List ℕ) × (best : HandResult) × (r ≡ (winners, some best))
    × All (HoldsTie hands best) winners
    × (0 < length winners)
    × P winners best

challenge-Outcome :
    (hands : Hands) (pid : ℕ) (hand best : HandResult) (winners : List ℕ)
    → hand_of pid hands ≡ some hand
    → All (HoldsTie hands best) winners
    → 0 < length winners
    → Outcome hands
        (challenge pid hand (winners, some best))
        (λ w b. Keeps winners best w b × JudgedWith pid hand w b)
unfolding challenge
challenge-Outcome hands pid hand best winners e h l = elim (Bool-cases (stronger hand best)) [
  | inl s ↦ (
    pid ∷ [],
    hand,
    rw s,
    ((hand, e, ties_refl hand), tt),
    omega arith,
    (
      (λ q x j. (
        stronger_trans x best hand j.0 (stronger_asym hand best s),
        λ t. absurd (true≢false (sym s ∙ sym (ties-stronger x hand best t) ∙ j.0)),
      )),
      (stronger_irrefl hand, λ _. ground arith),
    ),
  )
  | inr s ↦ elim (Bool-cases (ties hand best)) [
    | inl t ↦ (
      winners ++ pid ∷ [],
      best,
      rw s (rw t),
      All-append _ winners (pid ∷ []) h ((hand, e, t), tt),
      omega (arith, length-append winners (pid ∷ [])),
      (
        (λ q x j. (j.0, λ u. contains-append q winners (pid ∷ []) (j.1 u))),
        (s, λ _. contains-append_last pid winners),
      ),
    )
    | inr t ↦ (
      winners,
      best,
      rw s (rw t),
      h,
      l,
      ((λ q x j. j), (s, λ u. absurd (true≢false (sym u ∙ t)))),
    )
  ]
]

loop-Outcome :
    (hands : Hands) (ids winners : List ℕ) (best : HandResult)
    → All (HoldsTie hands best) winners
    → 0 < length winners
    → Outcome hands
        (winners_from hands ids (winners, some best))
        (λ w b. Keeps winners best w b × All (Judged hands w b) ids)
unfolding winners_from
loop-Outcome hands [] winners best h l = (winners, best, refl, h, l, ((λ q x j. j), tt))
loop-Outcome hands (pid ∷ ids) winners best h l = elim (Option-cases (hand_of pid hands)) [
  | inl e ↦
      let (w, b, run, ties, some_won, (keeps, all)) = loop-Outcome hands ids winners best h l in
      (w, b, rw e run, ties, some_won, (keeps, ((λ x q. absurd (none-ne-some x (sym e ∙ q))), all)))
  | inr (hand, e) ↦
      let (w', b', step, ties', won', (keeps', judged)) =
        challenge-Outcome hands pid hand best winners e h l in
      let (w, b, run, ties, some_won, (keeps, all)) = loop-Outcome hands ids w' b' ties' won' in
      (
        w,
        b,
        rw e (rw step run),
        ties,
        some_won,
        (
          (λ q x j. keeps q x (keeps' q x j)),
          (
            (λ x q.
                subst (λ y. JudgedWith pid y w b) (some-injective hand x (sym e ∙ q))
                  (keeps pid hand judged)),
            all,
          ),
        ),
      )
]

-- The hand of an id is known.
abbrev pub HasHand : Hands → ℕ → Type 0
HasHand hands pid = (h : HandResult) × (hand_of pid hands ≡ some h)

-- Among candidates whose first has a known hand there is a winner; the winners all hold a best
-- hand, no candidate has a stronger one, and every candidate with a hand as good is among the
-- winners.
pub determine_winner_ids-Judged :
    (hands : Hands) (pid : ℕ) (ids : List ℕ)
    → HasHand hands pid
    → (winners : List ℕ) × (best : HandResult) × (determine_winner_ids hands (pid ∷ ids)
        ≡ (winners, some best))
      × All (HoldsTie hands best) winners
      × (0 < length winners)
      × All (Judged hands winners best) (pid ∷ ids)
unfolding determine_winner_ids winners_from challenge
determine_winner_ids-Judged hands pid ids (hand, e) =
    let (w, b, run, ties, won, (keeps, all)) =
      loop-Outcome hands ids (pid ∷ []) hand ((hand, e, ties_refl hand), tt) (omega arith) in
    let judged : JudgedWith pid hand (pid ∷ []) hand = (stronger_irrefl hand, λ _. ground arith) in
    (
      w,
      b,
      rw e run,
      ties,
      won,
      (
        (λ x q.
            subst (λ y. JudgedWith pid y w b) (some-injective hand x (sym e ∙ q))
              (keeps pid hand judged)),
        all,
      ),
    )
