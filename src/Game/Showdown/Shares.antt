-- ===== src/Game/Showdown/Shares.antt =====
-- The shares of the layers in `conduct_showdown`.
use adk_poker.Base.{
  ℕ, suc, ◌+◌, ◌-◌, ◌*◌, ◌/◌, ◌%◌, ◌≤◌, ◌≡◌, refl, ◌∙◌, inl, inr, Bool, true, false, List, [], ◌∷◌,
  min, leb, ltb, ◌==◌, if◌then◌else◌, length, some, keep_if, contains, All, arith, Bool-cases,
}
use adk_poker.Base.Dict.{Dict, insert, keys, get_or_zero, total, total-insert_add}
use adk_poker.Result.{Result, ok, ◌>>=◌}
use adk_poker.Game.Showdown.Layers.{layer_sum}
use adk_poker.Ranking.{HandResult}
use adk_poker.Game.State.{Game, pot_layer, log_entry}
use adk_poker.Game.Pots.{insert_asc, sort_asc, Layer, Hands}
use adk_poker.Game.Showdown.{Payout, give_shares, share_layer, share_layers}
use adk_poker.Game.Showdown.Winners.{HasHand, HoldsTie, determine_winner_ids-Judged}

length-insert_asc : (x : ℕ) (xs : List ℕ) → length (insert_asc x xs) ≡ suc (length xs)
unfolding insert_asc
length-insert_asc x [] = refl
length-insert_asc x (y ∷ ys) = ground (arith, length-insert_asc x ys)

length-sort_asc : (xs : List ℕ) → length (sort_asc xs) ≡ length xs
unfolding sort_asc
length-sort_asc [] = refl
length-sort_asc (x ∷ xs) = omega (arith, length-insert_asc x (sort_asc xs), length-sort_asc xs)

insert_asc-All {κ} :
    (P : ℕ → Type κ) (x : ℕ) (xs : List ℕ) → P x → All P xs → All P (insert_asc x xs)
unfolding insert_asc
insert_asc-All P x [] h k = (h, tt)
insert_asc-All P x (y ∷ ys) h k = elim (Bool-cases (leb x y)) [
  | inl e ↦ rw e (h, k)
  | inr e ↦ rw e (k.0, insert_asc-All P x ys h k.1)
]

pub sort_asc-All {κ} : (P : ℕ → Type κ) (xs : List ℕ) → All P xs → All P (sort_asc xs)
unfolding sort_asc
sort_asc-All P [] h = tt
sort_asc-All P (x ∷ xs) h = insert_asc-All P x (sort_asc xs) h.0 (sort_asc-All P xs h.1)

-- The shares of a layer add up: everybody has the base, and the first `remainder` one chip more.
give_shares-sum :
    (base remainder i : ℕ) (ids : List ℕ) (pay : Payout)
    → let pay' = give_shares base remainder i ids pay in
      let sum = length ids * base + (min remainder (i + length ids) - min remainder i) in
      (pay'.awarded ≡ pay.awarded + sum) × (total pay'.winnings ≡ total pay.winnings + sum)
unfolding give_shares
give_shares-sum base remainder i [] pay = (omega arith, omega arith)
give_shares-sum base remainder i (pid ∷ ids) pay =
    let share = base + (if ltb i remainder then 1 else 0) in
    let next : Payout = record {
      winnings = insert pid (get_or_zero pid pay.winnings + share) pay.winnings;
      awarded = pay.awarded + share;
    } in
    let (a, t) = give_shares-sum base remainder (suc i) ids next in
    let step = total-insert_add pid share pay.winnings in
    (ground (arith, a), ground (arith, t, step))

insert-All-keys {κ} :
    (P : ℕ → Type κ) (k v : ℕ) (d : Dict ℕ) → P k → All P (keys d) → All P (keys (insert k v d))
insert-All-keys P k v [] h a = (h, tt)
insert-All-keys P k v ((j, w) ∷ d) h a = elim (Bool-cases (j == k)) [
  | inl e ↦ rw e a
  | inr e ↦ rw e (a.0, insert-All-keys P k v d h a.1)
]

give_shares-All {κ} :
    (P : ℕ → Type κ) (base remainder i : ℕ) (ids : List ℕ) (pay : Payout)
    → All P ids
    → All P (keys pay.winnings)
    → All P (keys (give_shares base remainder i ids pay).winnings)
unfolding give_shares
give_shares-All P base remainder i [] pay h a = a
give_shares-All P base remainder i (pid ∷ ids) pay h a =
    give_shares-All P base remainder (suc i) ids _ h.1 (insert-All-keys P pid _ pay.winnings h.0 a)

-- What a step of the loop does to the payout and the state.
abbrev pub Pays : Hands → ℕ → Payout × Game → Result (Payout × Game) → Type 0
Pays hands amount (pay, g) r =
    (pay' : Payout) × (g' : Game) × (r ≡ ok (pay', g'))
    × (pay'.awarded ≡ pay.awarded + amount)
    × (total pay'.winnings ≡ total pay.winnings + amount)
    × All (HasHand hands) (keys pay'.winnings)
    × (g'.players ≡ g.players)
    × (g'.pot ≡ g.pot)

holders-HasHand :
    (hands : Hands) (best : HandResult) (ids : List ℕ)
    → All (HoldsTie hands best) ids
    → All (HasHand hands) ids
holders-HasHand hands best [] h = tt
holders-HasHand hands best (pid ∷ ids) ((x, e, t), h) = ((x, e), holders-HasHand hands best ids h)

share_layer-Pays :
    (hands : Hands) (i : ℕ) (layer : Layer) (pid : ℕ) (ids : List ℕ) (pay : Payout) (g : Game)
    → HasHand hands pid
    → All (HasHand hands) (keys pay.winnings)
    → Pays hands layer.amount (pay, g) (share_layer hands i layer (pid ∷ ids) (pay, g))
unfolding share_layer
share_layer-Pays hands i layer pid ids pay g h a =
    let (w, b, run, holders, won, judged) = determine_winner_ids-Judged hands pid ids h in
    let base = layer.amount / length w in
    let remainder = layer.amount % length w in
    let (s, t) = give_shares-sum base remainder 0 (sort_asc w) pay in
    let all = sort_asc-All (HasHand hands) w (holders-HasHand hands b w holders) in
    let more : (length w == 0) ≡ false = ground arith in
    let whole : length (sort_asc w) * base
          + (min remainder (0 + length (sort_asc w)) - min remainder 0)
        ≡ layer.amount =
      rw (length-sort_asc w) (omega arith) in
    (
      give_shares base remainder 0 (sort_asc w) pay,
      log_entry (pot_layer i layer.amount (sort_asc w) (some b)) g,
      rw run (rw more),
      rw whole at s,
      rw whole at t,
      give_shares-All (HasHand hands) base remainder 0 (sort_asc w) pay all a,
      refl,
      refl,
    )

-- Those of a layer's contributors who show a hand.
abbrev pub eligible : List ℕ → Layer → List ℕ
eligible shown layer = keep_if (λ pid. contains pid shown) layer.contributors

abbrev pub if_any : List ℕ → ℕ → ℕ
if_any [] amount = 0
if_any (_ ∷ _) amount = amount

-- What the layers with somebody eligible hold.
abbrev pub claimed : List ℕ → List Layer → ℕ
claimed shown [] = 0
claimed shown (layer ∷ layers) = if_any (eligible shown layer) layer.amount + claimed shown layers

keep_if-All : (p : ℕ → Bool) (xs : List ℕ) → All (λ x. p x ≡ true) (keep_if p xs)
keep_if-All p [] = tt
keep_if-All p (x ∷ xs) = elim (Bool-cases (p x)) [
  | inl e ↦ rw e (e, keep_if-All p xs)
  | inr e ↦ rw e (keep_if-All p xs)
]

-- Every id that is shown has a hand.
abbrev pub AllShown : Hands → List ℕ → Type 0
AllShown hands shown = (pid : ℕ) → contains pid shown ≡ true → HasHand hands pid

Pays-refl :
    (hands : Hands) (pay : Payout) (g : Game)
    → All (HasHand hands) (keys pay.winnings)
    → Pays hands 0 (pay, g) (ok (pay, g))
Pays-refl hands pay g a = (pay, g, refl, omega arith, omega arith, a, refl, refl)

pub share_layers-Pays :
    (hands : Hands) (shown : List ℕ) (i : ℕ) (layers : List Layer) (pay : Payout) (g : Game)
    → AllShown hands shown
    → All (HasHand hands) (keys pay.winnings)
    → Pays hands (claimed shown layers) (pay, g) (share_layers hands shown i layers (pay, g))
unfolding share_layers
share_layers-Pays hands shown i [] pay g h a = Pays-refl hands pay g a
share_layers-Pays hands shown i (layer ∷ layers) pay g h a =
    go (eligible shown layer) (keep_if-All (λ pid. contains pid shown) layer.contributors)
      (λ pay' g' a'. share_layers-Pays hands shown (suc i) layers pay' g' h a')
  where
    go :
        (ids : List ℕ)
        → All (λ pid. contains pid shown ≡ true) ids
        → ((pay' : Payout) (g' : Game)
            → All (HasHand hands) (keys pay'.winnings)
            → Pays hands
                (claimed shown layers)
                (pay', g')
                (share_layers hands shown (suc i) layers (pay', g')))
        → Pays hands
            (if_any ids layer.amount + claimed shown layers)
            (pay, g)
            (elim ids [
              | [] ↦ share_layers hands shown (suc i) layers (pay, g)
              | pid ∷ rest ↦ share_layer hands i layer (pid ∷ rest) (pay, g) >>= λ next.
                  share_layers hands shown (suc i) layers next
            ])
    go [] k later =
        let (pay', g', run, s, t, all, ps, pot) = later pay g a in
        (pay', g', run, omega arith, omega arith, all, ps, pot)
    go (pid ∷ ids) k later =
        let (pay1, g1, run1, s1, t1, all1, ps1, pot1) =
          share_layer-Pays hands i layer pid ids pay g (h pid k.0) a in
        let (pay', g', run, s, t, all, ps, pot) = later pay1 g1 all1 in
        (pay', g', rw run1 run, omega arith, omega arith, all, ps ∙ ps1, pot ∙ pot1)

-- What can be claimed is never more than the layers hold.
pub claimed-le : (shown : List ℕ) (layers : List Layer) → claimed shown layers ≤ layer_sum layers
claimed-le shown [] = omega arith
claimed-le shown (layer ∷ layers) = elim-any (eligible shown layer) (claimed-le shown layers)
  where
    elim-any :
        (ids : List ℕ)
        → claimed shown layers ≤ layer_sum layers
        → if_any ids layer.amount + claimed shown layers ≤ layer.amount + layer_sum layers
    elim-any [] h = omega arith
    elim-any (_ ∷ _) h = omega arith
