-- ===== src/Game/Table.antt =====
-- Reading and writing the table of players.
use adk_poker.Base.{
  ℕ, ◌+◌, ◌≡◌, ◌≢◌, refl, List, [], ◌∷◌, ◌==◌, length, some, sum_of, arith, All, inl, inr,
  Bool-cases,
}
use mathlib.Core.Path.{subst}
use mathlib.Core.Option.{some-injective}
use adk_poker.Player.{Player}
use adk_poker.Game.State.{find_player, put_player}
use adk_poker.Cards.{Card}
use adk_poker.Cards.Deck.{copies}

-- How often a card is in the players' hands.
abbrev pub held_copies : Card → List Player → ℕ
held_copies x = sum_of (λ (p : Player). copies x p.hole_cards)

pub find_player-id :
    (id : ℕ) (ps : List Player) (p : Player) → find_player id ps ≡ some p → p.id ≡ id
unfolding find_player
find_player-id id [] p h = cc
find_player-id id (q ∷ ps) p h = ground (arith, find_player-id id ps p)

-- A write moves every sum by the change of the one player.
pub sum_of-put_player :
    (f : Player → ℕ) (id : ℕ) (q : Player) (ps : List Player) (p : Player)
    → find_player id ps ≡ some p
    → sum_of f (put_player id q ps) + f p ≡ sum_of f ps + f q
unfolding find_player put_player
sum_of-put_player f id q [] p h = cc
sum_of-put_player f id q (r ∷ ps) p h = ground (arith, sum_of-put_player f id q ps p)

pub find_player-put_self :
    (id : ℕ) (q : Player) (ps : List Player) (p : Player)
    → find_player id ps ≡ some p
    → q.id ≡ id
    → find_player id (put_player id q ps) ≡ some q
unfolding find_player put_player
find_player-put_self id q [] p h k = cc
find_player-put_self id q (r ∷ ps) p h k = ground (arith, find_player-put_self id q ps p)

pub find_player-put_ne :
    (id j : ℕ) (q : Player) (ps : List Player)
    → j ≢ id
    → q.id ≡ id
    → find_player j (put_player id q ps) ≡ find_player j ps
unfolding find_player put_player
find_player-put_ne id j q [] h k = refl
find_player-put_ne id j q (r ∷ ps) h k = ground (arith, find_player-put_ne id j q ps h k)

pub length-put_player :
    (id : ℕ) (q : Player) (ps : List Player) → length (put_player id q ps) ≡ length ps
unfolding put_player
length-put_player id q [] = refl
length-put_player id q (r ∷ ps) = ground (arith, length-put_player id q ps)

-- What holds of all players holds after a write of a player of whom it holds.
pub All-put_player {κ} :
    (P : Player → Type κ) (id : ℕ) (q : Player) (ps : List Player)
    → All P ps
    → P q
    → All P (put_player id q ps)
unfolding put_player
All-put_player P id q [] h k = tt
All-put_player P id q (r ∷ ps) h k = elim (Bool-cases (r.id == id)) [
  | inl e ↦ rw e (k, h.1)
  | inr e ↦ rw e (h.0, All-put_player P id q ps h.1 k)
]

pub All-find_player {κ} :
    (P : Player → Type κ) (id : ℕ) (ps : List Player) (p : Player)
    → All P ps
    → find_player id ps ≡ some p
    → P p
unfolding find_player
All-find_player P id [] p h k = cc
All-find_player P id (r ∷ ps) p h k = elim (Bool-cases (r.id == id)) [
  | inl e ↦ let q : some r ≡ some p = ground (arith, e, k) in subst P (some-injective r p q) h.0
  | inr e ↦ All-find_player P id ps p h.1 (ground (arith, e, k))
]
