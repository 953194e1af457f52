-- ===== src/Game/Showdown/Agreement.antt =====
-- The comparison inside `conduct_showdown` beside `HandEvaluator.compare_hands`.
use adk_poker.Base.{
  ℕ, ◌≡◌, refl, ◌↔◌, true, List, [], ◌∷◌, arith, length, ◌==◌, Bool-cases, inl, inr,
}
use adk_poker.Base.Int.{pos}
use adk_poker.Ranking.{HandResult, rank_value, same_ranks, compare_kickers, compare_hands}
use adk_poker.Evaluator.Order.{Comparable}
use adk_poker.Game.Pots.{kickers_gt, stronger, ties}

kickers_gt-compare :
    (ks ls : List ℕ)
    → length ks ≡ length ls
    → (kickers_gt ks ls ≡ true) ↔ (compare_kickers ks ls ≡ pos 1)
unfolding kickers_gt compare_kickers
kickers_gt-compare [] [] e = (λ h. cc, λ h. cc)
kickers_gt-compare [] (l ∷ ls) e = absurd (omega arith)
kickers_gt-compare (k ∷ ks) [] e = absurd (omega arith)
kickers_gt-compare (k ∷ ks) (l ∷ ls) e =
    let ih = kickers_gt-compare ks ls (omega arith) in
    (λ h. ground (arith, ih), λ h. ground (arith, ih))

same_ranks-compare :
    (ks ls : List ℕ)
    → length ks ≡ length ls
    → (same_ranks ks ls ≡ true) ↔ (compare_kickers ks ls ≡ pos 0)
unfolding compare_kickers
same_ranks-compare [] [] e = (λ h. refl, λ h. refl)
same_ranks-compare [] (l ∷ ls) e = absurd (omega arith)
same_ranks-compare (k ∷ ks) [] e = absurd (omega arith)
same_ranks-compare (k ∷ ks) (l ∷ ls) e =
    let ih = same_ranks-compare ks ls (omega arith) in
    (λ h. ground (arith, ih), λ h. ground (arith, ih))

-- Between hands whose kickers are of one length where their ranks agree, a hand beats another in
-- the showdown exactly where compare_hands says that it wins, and ties with it exactly where
-- compare_hands says that neither does.
pub stronger-compare_hands :
    (a b : HandResult)
    → Comparable a b
    → ((stronger a b ≡ true) ↔ (compare_hands a b ≡ pos 1))
      × ((ties a b ≡ true) ↔ (compare_hands a b ≡ pos 0))
unfolding compare_hands
stronger-compare_hands a b c = elim (Bool-cases (rank_value a.rank == rank_value b.rank)) [
  | inl e ↦
      let same : length a.kickers ≡ length b.kickers = c (ground arith) in
      let s = kickers_gt-compare a.kickers b.kickers same in
      let t = same_ranks-compare a.kickers b.kickers same in
      (
        (λ h. ground (arith, e, s), λ h. ground (arith, e, s)),
        (λ h. ground (arith, e, t), λ h. ground (arith, e, t)),
      )
  | inr e ↦ (
    (λ h. ground (arith, e), λ h. ground (arith, e)),
    (λ h. ground (arith, e), λ h. ground (arith, e)),
  )
]
