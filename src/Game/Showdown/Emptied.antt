-- ===== src/Game/Showdown/Emptied.antt =====
-- `conduct_showdown` when a player who has staked the most is still in the hand.
use mathlib.Core.Path.{subst}
use mathlib.Core.Option.{some-injective}
use adk_poker.Base.{
  ℕ, ◌+◌, ◌≤◌, ◌<◌, ◌≡◌, ◌≢◌, refl, ap, ◌∙◌, sym, inl, inr, Bool, true, false, List, [], ◌∷◌, leb,
  ltb, ◌==◌, if◌then◌else◌, length, some, keep_if, contains, All, arith, Bool-cases,
}
use adk_poker.Base.Dict.{Dict, lookup, insert, values}
use adk_poker.Evaluator.{distinct}
use adk_poker.Player.{Player}
use adk_poker.Game.State.{Game, ShowdownResult, find_player, stacks, stakes, in_hand}
use adk_poker.Game.Pots.{
  sort_asc, bets_from, contributions, Layer, contributors_at, layers_from, build_pot_layers,
}
use adk_poker.Game.Showdown.{conduct_showdown}
use adk_poker.Result.{ok}
use adk_poker.Game.Showdown.Payment.{conduct_showdown-PaysOut}
use adk_poker.Game.Showdown.Shown.{HaveCards, ids_of}
use adk_poker.Game.Showdown.Layers.{layer_sum, DistinctIds, layers-stakes}
use adk_poker.Game.Showdown.Shares.{eligible, if_any, claimed, sort_asc-All}

contributors_at-contains :
    (pid level amt : ℕ) (d : Dict ℕ)
    → lookup pid d ≡ some amt
    → level ≤ amt
    → contains pid (contributors_at level d) ≡ true
contributors_at-contains pid level amt [] e h = cc
contributors_at-contains pid level amt ((k, v) ∷ d) e h =
    ground (arith, contributors_at-contains pid level amt d)

layers_from-contains :
    (pid amt prev : ℕ) (levels : List ℕ) (d : Dict ℕ)
    → lookup pid d ≡ some amt
    → All (λ l. l ≤ amt) levels
    → All (λ l. contains pid l.contributors ≡ true) (layers_from prev levels d)
unfolding layers_from
layers_from-contains pid amt prev [] d e h = tt
layers_from-contains pid amt prev (level ∷ levels) d e h = elim (Bool-cases (leb level prev)) [
  | inl f ↦ rw f (layers_from-contains pid amt level levels d e h.1)
  | inr f ↦ rw f (
    contributors_at-contains pid level amt d e h.0,
    layers_from-contains pid amt level levels d e h.1,
  )
]

contains-keep_if :
    (pid : ℕ) (test : ℕ → Bool) (xs : List ℕ)
    → test pid ≡ true
    → contains pid xs ≡ true
    → 0 < length (keep_if test xs)
contains-keep_if pid test [] t c = cc
contains-keep_if pid test (x ∷ xs) t c = elim (Bool-cases (test x)) [
  | inl e ↦ rw e (omega arith)
  | inr e ↦ elim (Bool-cases (pid == x)) [
    | inl f ↦
        let same : x ≡ pid = ground arith in absurd (true≢false (sym t ∙ ap test (sym same) ∙ e))
    | inr f ↦ rw e (contains-keep_if pid test xs t (ground (arith, c, f)))
  ]
]
  where
    true≢false : ¬ (true ≡ false)
    true≢false h = cc

-- With a shown contributor in every layer all is claimed.
claimed-All :
    (pid : ℕ) (shown : List ℕ) (layers : List Layer)
    → contains pid shown ≡ true
    → All (λ l. contains pid l.contributors ≡ true) layers
    → claimed shown layers ≡ layer_sum layers
claimed-All pid shown [] s h = refl
claimed-All pid shown (l ∷ layers) s h =
    any (eligible shown l) (contains-keep_if pid (λ q. contains q shown) l.contributors s h.0)
      (claimed-All pid shown layers s h.1)
  where
    any :
        (ids : List ℕ)
        → 0 < length ids
        → claimed shown layers ≡ layer_sum layers
        → if_any ids l.amount + claimed shown layers ≡ l.amount + layer_sum layers
    any [] k rest = absurd (omega arith)
    any (_ ∷ _) k rest = omega (arith, rest)

distinct-All : (M : ℕ) (xs : List ℕ) → All (λ x. x ≤ M) xs → All (λ x. x ≤ M) (distinct xs)
unfolding distinct
distinct-All M [] h = tt
distinct-All M (x ∷ xs) h = ground (arith, distinct-All M xs h.1)

insert-values :
    (M k v : ℕ) (d : Dict ℕ)
    → v ≤ M
    → All (λ x. x ≤ M) (values d)
    → All (λ x. x ≤ M) (values (insert k v d))
insert-values M k v [] h a = (h, tt)
insert-values M k v ((j, w) ∷ d) h a = elim (Bool-cases (j == k)) [
  | inl e ↦ rw e (h, a.1)
  | inr e ↦ rw e (a.0, insert-values M k v d h a.1)
]

bets_from-values :
    (M : ℕ) (d : Dict ℕ) (ps : List Player)
    → All (λ q. q.total_bet_this_hand ≤ M) ps
    → All (λ x. x ≤ M) (values d)
    → All (λ x. x ≤ M) (values (bets_from d ps))
unfolding bets_from
bets_from-values M d [] h a = a
bets_from-values M d (p ∷ ps) h a =
    bets_from-values M (insert p.id p.total_bet_this_hand d) ps h.1
      (insert-values M p.id p.total_bet_this_hand d h.0 a)

keep_if-values :
    (M : ℕ) (d : Dict ℕ)
    → All (λ x. x ≤ M) (values d)
    → All (λ x. x ≤ M) (values (keep_if (λ (e : ℕ × ℕ). ltb 0 e.1) d))
keep_if-values M [] a = tt
keep_if-values M ((k, v) ∷ d) a = elim (Bool-cases (ltb 0 v)) [
  | inl e ↦ rw e (a.0, keep_if-values M d a.1)
  | inr e ↦ rw e (keep_if-values M d a.1)
]

lookup-insert :
    (j k v : ℕ) (d : Dict ℕ) → lookup j (insert k v d) ≡ (if k == j then some v else lookup j d)
lookup-insert j k v [] = ground arith
lookup-insert j k v ((i, w) ∷ d) = ground (arith, lookup-insert j k v d)

lookup-bets_from_other :
    (j : ℕ) (d : Dict ℕ) (ps : List Player)
    → All (λ q. q.id ≢ j) ps
    → lookup j (bets_from d ps) ≡ lookup j d
unfolding bets_from
lookup-bets_from_other j d [] h = refl
lookup-bets_from_other j d (p ∷ ps) h = ground (
  arith,
  lookup-bets_from_other j (insert p.id p.total_bet_this_hand d) ps h.1,
  lookup-insert j p.id p.total_bet_this_hand d,
)

lookup-bets_from :
    (j : ℕ) (d : Dict ℕ) (ps : List Player) (p : Player)
    → DistinctIds ps
    → find_player j ps ≡ some p
    → lookup j (bets_from d ps) ≡ some p.total_bet_this_hand
unfolding bets_from find_player
lookup-bets_from j d [] p h e = cc
lookup-bets_from j d (q ∷ ps) p h e = elim (Bool-cases (q.id == j)) [
  | inl f ↦
      let same : q.id ≡ j = ground arith in
      let found : some q ≡ some p = ground (arith, e, f) in
      let others : All (λ r. r.id ≢ j) ps = subst (λ k. All (λ r. r.id ≢ k) ps) same h.0 in
      lookup-bets_from_other j (insert q.id q.total_bet_this_hand d) ps others
      ∙ lookup-insert j q.id q.total_bet_this_hand d
      ∙ ground (arith, f, found)
  | inr f ↦ lookup-bets_from j (insert q.id q.total_bet_this_hand d) ps p h.1 (ground (arith, e, f))
]

lookup-keep_if :
    (j v : ℕ) (d : Dict ℕ)
    → 0 < v
    → lookup j d ≡ some v
    → lookup j (keep_if (λ (e : ℕ × ℕ). ltb 0 e.1) d) ≡ some v
lookup-keep_if j v [] h e = cc
lookup-keep_if j v ((k, w) ∷ d) h e = ground (arith, lookup-keep_if j v d h)

sort_asc-bound : (M : ℕ) (xs : List ℕ) → All (λ x. x ≤ M) xs → All (λ x. x ≤ M) (sort_asc xs)
sort_asc-bound M xs = sort_asc-All (λ x. x ≤ M) xs

-- The player's id is in every layer, if nobody has staked more.
biggest-contributes :
    (ps : List Player) (p : Player)
    → DistinctIds ps
    → find_player p.id ps ≡ some p
    → All (λ q. q.total_bet_this_hand ≤ p.total_bet_this_hand) ps
    → 0 < p.total_bet_this_hand
    → All (λ l. contains p.id l.contributors ≡ true) (build_pot_layers (contributions ps))
unfolding build_pot_layers contributions
biggest-contributes ps p d e most some_bet =
    let M = p.total_bet_this_hand in
    let bets = bets_from [] ps in
    let kept = keep_if (λ (x : ℕ × ℕ). ltb 0 x.1) bets in
    layers_from-contains p.id M 0 (sort_asc (distinct (values kept))) kept
      (lookup-keep_if p.id M bets some_bet (lookup-bets_from p.id [] ps p d e))
      (sort_asc-bound M (distinct (values kept))
        (distinct-All M (values kept) (keep_if-values M bets (bets_from-values M [] ps most tt))))

in_hand-contains :
    (j : ℕ) (ps : List Player) (p : Player)
    → find_player j ps ≡ some p
    → in_hand p ≡ true
    → contains j (ids_of (keep_if in_hand ps)) ≡ true
unfolding find_player
in_hand-contains j [] p e h = cc
in_hand-contains j (q ∷ ps) p e h = elim (Bool-cases (q.id == j)) [
  | inl f ↦
      let found : q ≡ p = some-injective q p (ground (arith, e, f)) in
      let stays : in_hand q ≡ true = ap in_hand found ∙ h in rw stays (ground (arith, f))
  | inr f ↦
      let rest = in_hand-contains j ps p (ground (arith, e, f)) h in
      elim (Bool-cases (in_hand q)) [ inl s ↦ rw s (ground (arith, f, rest)) | inr s ↦ rw s rest ]
]

-- A showdown of two players or more pays out the whole pot and leaves none of it, if somebody who
-- has bet, than whom nobody has bet more, is still in the hand (and ids differ, hands can be read,
-- and the pot is what was staked).
pub conduct_showdown-empties :
    (g : Game) (p : Player)
    → DistinctIds g.players
    → HaveCards g.community_cards (keep_if in_hand g.players)
    → g.pot ≡ stakes g.players
    → 2 ≤ length (keep_if in_hand g.players)
    → find_player p.id g.players ≡ some p
    → in_hand p ≡ true
    → All (λ q. q.total_bet_this_hand ≤ p.total_bet_this_hand) g.players
    → 0 < p.total_bet_this_hand
    → (h : Game) × (s : ShowdownResult) × (conduct_showdown g ≡ ok (h, s))
      × (stacks h.players ≡ stacks g.players + g.pot)
      × (h.pot ≡ 0)
conduct_showdown-empties g p d cards pot many e stays most some_bet =
    let (h, s, run, paid, left) = conduct_showdown-PaysOut g cards many in
    let all =
      claimed-All p.id (ids_of (keep_if in_hand g.players))
        (build_pot_layers (contributions g.players)) (in_hand-contains p.id g.players p e stays)
        (biggest-contributes g.players p d e most some_bet) in
    let sum = layers-stakes g.players d in
    (h, s, run, omega (arith, paid, all, sum), omega (arith, left, all, sum))
