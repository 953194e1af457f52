-- ===== src/Game/Tables.antt =====
-- The players at a new table: the loop of the setup functions of poker/game.py.
use adk_poker.Base.{
  ℕ, zero, suc, ◌+◌, ◌-◌, ◌*◌, ◌≤◌, ◌<◌, ◌≡◌, ◌≢◌, ap, sym, ◌∙◌, refl, leb, true, false, ◌||◌, List,
  [], ◌∷◌, ◌++◌, arith, ltb, length, length-append, keep_if, All,
}
use Prim.Native.Nat.mul
use mathlib.Core.List.{append-nil, append_assoc}
use adk_poker.Result.{Result, ok, raise, value_error, Yields}
use adk_poker.Player.{Player, new_player}
use adk_poker.Game.State.{Game, add_player, stacks}
use adk_poker.Game.Setup.{Seat, add_seats, setup}
use adk_poker.Game.Hand.Start.{has_chips}
use adk_poker.Game.Showdown.Layers.{DistinctIds}

-- The players with the ids from `i` on, `n` of them.
abbrev pub new_players : ℕ → ℕ → ℕ → List Player
new_players chips i zero = []
new_players chips i (suc n) = new_player i chips ∷ new_players chips (suc i) n

pub stacks-new_players : (chips i n : ℕ) → stacks (new_players chips i n) ≡ n * chips
unfolding new_player
stacks-new_players chips i zero = omega arith
stacks-new_players chips i (suc n) =
    omega (arith, stacks-new_players chips (suc i) n, mul.suc n chips)

pub length-new_players : (chips i n : ℕ) → length (new_players chips i n) ≡ n
length-new_players chips i zero = refl
length-new_players chips i (suc n) = ap suc (length-new_players chips (suc i) n)

above : (chips i j n : ℕ) → i < j → All (λ q. q.id ≢ i) (new_players chips j n)
unfolding new_player
above chips i j zero h = tt
above chips i j (suc n) h = ((λ e. omega (arith, e)), above chips i (suc j) n (omega arith))

pub new_players-DistinctIds : (chips i n : ℕ) → DistinctIds (new_players chips i n)
unfolding new_player
new_players-DistinctIds chips i zero = tt
new_players-DistinctIds chips i (suc n) =
    (above chips i (suc i) n (omega arith), new_players-DistinctIds chips (suc i) n)

pub all_have_chips :
    (chips i n : ℕ) → 0 < chips → keep_if has_chips (new_players chips i n) ≡ new_players chips i n
unfolding new_player
all_have_chips chips i zero h = refl
all_have_chips chips i (suc n) h =
    let e : ltb 0 chips ≡ true = ground arith in rw (e, all_have_chips chips (suc i) n h)

pub add_player-full :
    (p : Player) (g : Game) → leb 10 (length g.players) ≡ true → add_player p g ≡ raise value_error
unfolding add_player
add_player-full p g e = rw e

pub add_player-room :
    (p : Player) (g : Game)
    → leb 10 (length g.players) ≡ false
    → add_player p g ≡ ok (record g { players = g.players ++ p ∷ [] })
unfolding add_player
add_player-room p g e = rw e

joined_more :
    (ps qs ks : List Player) (p : Player) (i n : ℕ) {c c' : ℕ}
    → ks ≡ qs ++ new_players c' i n
    → qs ≡ ps ++ p ∷ []
    → c' ≡ c
    → ks ≡ ps ++ p ∷ new_players c i n
joined_more ps qs ks p i n {c} joined players chips =
    joined ∙ rw (players, chips) (append_assoc ps (p ∷ []) (new_players c i n))

add_player-Yields :
    (p : Player) (g : Game)
    → length g.players < 10
    → Yields
        (λ h. (h.players ≡ g.players ++ p ∷ []) × (h.initial_chips ≡ g.initial_chips))
        (add_player p g)
unfolding add_player
add_player-Yields p g h =
    let e : leb 10 (length g.players) ≡ false = ground arith in rw e (_, refl, (refl, refl))

module _ {A : Type 0} (make : ℕ → A → Result Seat) where
  -- Every entry gets a seat.
  abbrev pub Known : ℕ → List A → Type 0
  Known i [] = Unit
  Known i (x ∷ xs) = ((s : Seat) × (make i x ≡ ok s)) × Known (suc i) xs

  -- The players that were there, and the new ones.
  abbrev pub Joined : Game → ℕ → ℕ → Game × List Seat → Type 0
  Joined g i n r =
      (r.0.players ≡ g.players ++ new_players g.initial_chips i n)
      × (r.0.initial_chips ≡ g.initial_chips)
      × (length r.1 ≡ n)

  add_seats-Joined :
      (i : ℕ) (xs : List A) (g : Game)
      → Known i xs
      → length g.players + length xs ≤ 10
      → Yields (Joined g i (length xs)) (add_seats make i xs g)
  unfolding add_seats
  add_seats-Joined i [] g known few = (_, refl, (sym (append-nil g.players), refl, refl))
  add_seats-Joined i (x ∷ xs) g known few =
      let (seat, made) = known.0 in
      let (h, added, (players, chips)) =
        add_player-Yields (new_player i g.initial_chips) g (omega arith) in
      let ((k, seats), run, (joined, same, many)) = add_seats-Joined (suc i) xs h known.1 (
        omega (
          arith,
          few,
          ap length players,
          length-append g.players (new_player i g.initial_chips ∷ []),
        )) in
      (
        (k, seat ∷ seats),
        rw made (rw added (rw run refl)),
        (
          joined_more g.players h.players k.players (new_player i g.initial_chips) (suc i)
              (length xs) joined players chips,
          same ∙ chips,
          ap suc many,
        ),
      )

  pub setup-Joined :
      (draw : ℕ → ℕ) (xs : List A) (g : Game)
      → 2 ≤ length xs
      → length xs ≤ 10
      → Known 0 xs
      → Yields
          (λ r.
            (r.0.players ≡ new_players g.initial_chips 0 (length xs))
            × (length r.1 ≡ length xs)
            × (r.0.dealer_button ≡ draw (length xs - 1)))
          (setup make draw xs g)
  unfolding setup
  setup-Joined draw xs g many few known =
      let e : (ltb (length xs) 2 || ltb 10 (length xs)) ≡ false = ground arith in
      let ((h, seats), run, (players, chips, count)) =
        add_seats-Joined 0 xs (record g { players = [] }) known (omega arith) in
      let size : length h.players ≡ length xs =
        ap length players ∙ length-new_players g.initial_chips 0 (length xs) in
      rw e (rw run (_, refl, (players, count, ap (λ n. draw (n - 1)) size)))
