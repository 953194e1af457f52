-- ===== src/Game/Showdown/Layers.antt =====
-- `build_pot_layers` of `conduct_showdown`, and what was staked.
use adk_poker.Base.{
  ℕ, ◌+◌, ◌-◌, ◌*◌, ◌≤◌, ◌≡◌, ◌≢◌, refl, ap, ◌∙◌, ◌⊎◌, inl, inr, true, List, [], ◌∷◌, leb, ltb,
  length, none, keep_if, contains, sum_of, All, arith, Bool-cases,
}
use adk_poker.Base.Dict.{Dict, lookup, insert, values, total}
use adk_poker.Evaluator.{distinct}
use adk_poker.Player.{Player}
use adk_poker.Game.State.{stakes}
use adk_poker.Game.Pots.{
  insert_asc, sort_asc, bets_from, contributions, Layer, contributors_at, layers_from,
  build_pot_layers,
}

abbrev pub layer_sum : List Layer → ℕ
layer_sum = sum_of (λ l. l.amount)

-- What the contributions have above `prev`.
abbrev above : ℕ → Dict ℕ → ℕ
above prev [] = 0
above prev ((_, v) ∷ d) = (v - prev) + above prev d

-- No contribution lies between the two levels.
abbrev Gap : ℕ → ℕ → Dict ℕ → Type 0
Gap prev level = All (λ e. (e.1 ≤ prev) ⊎ (level ≤ e.1))

above-step :
    (prev level width : ℕ) (d : Dict ℕ)
    → prev + width ≡ level
    → Gap prev level d
    → above prev d ≡ width * length (contributors_at level d) + above level d
above-step prev level width [] e h = omega arith
above-step prev level width ((k, v) ∷ d) e h = elim (Bool-cases (leb level v)) [
  | inl f ↦ rw f (ground (arith, above-step prev level width d e h.1))
  | inr f ↦ rw f (ground (arith, above-step prev level width d e h.1))
]

abbrev Ascends : ℕ → List ℕ → Type 0
Ascends prev [] = Unit
Ascends prev (level ∷ levels) = (prev ≤ level) × Ascends level levels

-- Every contribution is at most `prev` or one of the levels.
abbrev Covered : ℕ → List ℕ → Dict ℕ → Type 0
Covered prev levels = All (λ e. (e.1 ≤ prev) ⊎ (contains e.1 levels ≡ true))

Ascends-contains :
    (prev a : ℕ) (levels : List ℕ) → Ascends prev levels → contains a levels ≡ true → prev ≤ a
Ascends-contains prev a [] h c = cc
Ascends-contains prev a (level ∷ levels) h c = ground (arith, Ascends-contains level a levels h.1)

Covered-Gap :
    (prev level : ℕ) (levels : List ℕ) (d : Dict ℕ)
    → Ascends level levels
    → Covered prev (level ∷ levels) d
    → Gap prev level d
Covered-Gap prev level levels [] a h = tt
Covered-Gap prev level levels ((k, v) ∷ d) a h =
    (ground (arith, Ascends-contains level v levels a), Covered-Gap prev level levels d a h.1)

Covered-next :
    (prev level : ℕ) (levels : List ℕ) (d : Dict ℕ)
    → prev ≤ level
    → Covered prev (level ∷ levels) d
    → Covered level levels d
Covered-next prev level levels [] a h = tt
Covered-next prev level levels ((k, v) ∷ d) a h =
    (ground arith, Covered-next prev level levels d a h.1)

Covered-above : (prev : ℕ) (d : Dict ℕ) → Covered prev [] d → above prev d ≡ 0
Covered-above prev [] h = refl
Covered-above prev ((k, v) ∷ d) h = ground (arith, Covered-above prev d h.1)

layers_from-sum :
    (prev : ℕ) (levels : List ℕ) (d : Dict ℕ)
    → Ascends prev levels
    → Covered prev levels d
    → layer_sum (layers_from prev levels d) ≡ above prev d
unfolding layers_from
layers_from-sum prev [] d a h = ground (arith, Covered-above prev d h)
layers_from-sum prev (level ∷ levels) d a h =
    let rest = layers_from-sum level levels d a.1 (Covered-next prev level levels d a.0 h) in
    let step =
      above-step prev level (level - prev) d (omega arith)
        (Covered-Gap prev level levels d a.1 h) in
    elim (Bool-cases (leb level prev)) [
      | inl e ↦ let same : level ≡ prev = ground arith in rw e (rest ∙ ap (λ x. above x d) same)
      | inr e ↦ rw e (omega arith)
    ]

contains-insert_asc : (a x : ℕ) (xs : List ℕ) → contains a (insert_asc x xs) ≡ contains a (x ∷ xs)
unfolding insert_asc
contains-insert_asc a x [] = refl
contains-insert_asc a x (y ∷ ys) = ground (arith, contains-insert_asc a x ys)

contains-sort_asc : (a : ℕ) (xs : List ℕ) → contains a (sort_asc xs) ≡ contains a xs
unfolding sort_asc
contains-sort_asc a [] = refl
contains-sort_asc a (x ∷ xs) =
    ground (arith, contains-insert_asc a x (sort_asc xs), contains-sort_asc a xs)

contains-distinct : (a : ℕ) (xs : List ℕ) → contains a (distinct xs) ≡ contains a xs
unfolding distinct
contains-distinct a [] = refl
contains-distinct a (x ∷ xs) = ground (arith, contains-distinct a xs, contains-distinct x xs)

insert_asc-Ascends :
    (prev x : ℕ) (xs : List ℕ) → prev ≤ x → Ascends prev xs → Ascends prev (insert_asc x xs)
unfolding insert_asc
insert_asc-Ascends prev x [] h a = (h, tt)
insert_asc-Ascends prev x (y ∷ ys) h a = elim (Bool-cases (leb x y)) [
  | inl e ↦ rw e (h, (ground arith, a.1))
  | inr e ↦ rw e (a.0, insert_asc-Ascends y x ys (ground arith) a.1)
]

sort_asc-Ascends : (xs : List ℕ) → Ascends 0 (sort_asc xs)
unfolding sort_asc
sort_asc-Ascends [] = tt
sort_asc-Ascends (x ∷ xs) = insert_asc-Ascends 0 x (sort_asc xs) (omega arith) (sort_asc-Ascends xs)

Covered-values :
    (vs : List ℕ) (d : Dict ℕ)
    → ((a : ℕ) → contains a (values d) ≡ true → contains a vs ≡ true)
    → Covered 0 vs d
Covered-values vs [] h = tt
Covered-values vs ((k, v) ∷ d) h =
    (inr (h v (ground arith)), Covered-values vs d (λ a c. h a (ground arith)))

above-zero : (d : Dict ℕ) → above 0 d ≡ total d
above-zero [] = refl
above-zero ((k, v) ∷ d) = omega (arith, above-zero d)

-- The layers of any contributions add up to their sum.
pub build_pot_layers-sum : (d : Dict ℕ) → layer_sum (build_pot_layers d) ≡ total d
unfolding build_pot_layers
build_pot_layers-sum d =
    layers_from-sum 0 (sort_asc (distinct (values d))) d (sort_asc-Ascends (distinct (values d))) (
      Covered-values (sort_asc (distinct (values d))) d
        (λ a c. contains-sort_asc a (distinct (values d)) ∙ contains-distinct a (values d) ∙ c))
    ∙ above-zero d

-- No two players have one id.
abbrev pub DistinctIds : List Player → Type 0
DistinctIds [] = Unit
DistinctIds (p ∷ ps) = All (λ q. q.id ≢ p.id) ps × DistinctIds ps

abbrev Fresh : Dict ℕ → List Player → Type 0
Fresh d = All (λ q. lookup q.id d ≡ none)

lookup-insert_ne : (j k v : ℕ) (d : Dict ℕ) → j ≢ k → lookup j (insert k v d) ≡ lookup j d
lookup-insert_ne j k v [] h = ground arith
lookup-insert_ne j k v ((i, w) ∷ d) h = ground (arith, lookup-insert_ne j k v d h)

total-insert_new : (k v : ℕ) (d : Dict ℕ) → lookup k d ≡ none → total (insert k v d) ≡ total d + v
total-insert_new k v [] h = omega arith
total-insert_new k v ((j, w) ∷ d) h = ground (arith, total-insert_new k v d)

Fresh-insert :
    (k v : ℕ) (d : Dict ℕ) (ps : List Player)
    → All (λ q. q.id ≢ k) ps
    → Fresh d ps
    → Fresh (insert k v d) ps
Fresh-insert k v d [] h f = tt
Fresh-insert k v d (p ∷ ps) h f =
    (lookup-insert_ne p.id k v d h.0 ∙ f.0, Fresh-insert k v d ps h.1 f.1)

bets_from-total :
    (d : Dict ℕ) (ps : List Player)
    → DistinctIds ps
    → Fresh d ps
    → total (bets_from d ps) ≡ total d + stakes ps
unfolding bets_from
bets_from-total d [] h f = omega arith
bets_from-total d (p ∷ ps) h f = omega (
  arith,
  total-insert_new p.id p.total_bet_this_hand d f.0,
  bets_from-total (insert p.id p.total_bet_this_hand d) ps h.1
      (Fresh-insert p.id p.total_bet_this_hand d ps h.0 f.1),
)

total-keep_positive : (d : Dict ℕ) → total (keep_if (λ (e : ℕ × ℕ). ltb 0 e.1) d) ≡ total d
total-keep_positive [] = refl
total-keep_positive ((k, v) ∷ d) = ground (arith, total-keep_positive d)

Fresh-empty : (ps : List Player) → Fresh [] ps
Fresh-empty [] = tt
Fresh-empty (p ∷ ps) = (refl, Fresh-empty ps)

-- The layers of a showdown add up to all that the players have staked in the hand, if no two
-- players have one id.
pub layers-stakes :
    (ps : List Player)
    → DistinctIds ps
    → layer_sum (build_pot_layers (contributions ps)) ≡ stakes ps
unfolding contributions
layers-stakes ps h =
    build_pot_layers-sum (contributions ps)
    ∙ total-keep_positive (bets_from [] ps)
    ∙ omega (arith, bets_from-total [] ps h (Fresh-empty ps))
