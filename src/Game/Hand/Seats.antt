-- ===== src/Game/Hand/Seats.antt =====
-- Seats: reading lists by index and by value, and the lists of seats.
use adk_poker.Base.{
  ℕ, zero, suc, ◌+◌, ◌≤◌, ◌<◌, ◌≡◌, refl, ap, Bool, true, List, [], ◌∷◌, length, get_elem?, set,
  keep_if, contains, All, sum_of, arith, ◌==◌, Bool-cases, inl, inr, some,
}
use mathlib.Core.Path.{subst}
use mathlib.Core.Option.{some-injective}
use adk_poker.Result.{Yields}
use adk_poker.Player.{Player}
use adk_poker.Game.State.{seats_from}
use adk_poker.Game.Hand.{index_from, at}
use adk_poker.Game.Showdown.Shown.{ids_of}

All-map {κ μ} :
    (P : ℕ → Type κ) (Q : ℕ → Type μ) (xs : List ℕ) → ((x : ℕ) → P x → Q x) → All P xs → All Q xs
All-map P Q [] f h = tt
All-map P Q (x ∷ xs) f h = (f x h.0, All-map P Q xs f h.1)

-- An index in range can be read, and what all members have in common holds of the member read.
pub at-Yields {ℓ κ} :
    {A : Type ℓ} (P : A → Type κ) (xs : List A) (i : ℕ)
    → i < length xs
    → All P xs
    → Yields (λ x. (get_elem? xs i ≡ some x) × P x) (at xs i)
at-Yields P [] i h a = absurd (omega arith)
at-Yields P (x ∷ xs) zero h a = (x, refl, (refl, a.0))
at-Yields P (x ∷ xs) (suc i) h a = at-Yields P xs i (omega arith) a.1

-- A member of a list has an index in range.
pub index_from-Yields :
    (i x : ℕ) (xs : List ℕ)
    → contains x xs ≡ true
    → Yields (λ j. (i ≤ j) × (j < i + length xs)) (index_from i x xs)
unfolding index_from
index_from-Yields i x [] h = cc
index_from-Yields i x (y ∷ ys) h = elim (Bool-cases (y == x)) [
  | inl e ↦ (i, rw e refl, (omega arith, omega arith))
  | inr e ↦
      let (j, run, (low, high)) = index_from-Yields (suc i) x ys (ground arith) in
      (j, rw e run, (omega arith, omega arith))
]

-- The seat `j`, counted from `i`, is that of a player who passes the test.
abbrev pub Passes : (Player → Bool) → List Player → ℕ → ℕ → Type 0
Passes test ps i j =
    (k : ℕ) × (j ≡ i + k) × ((p : Player) × (get_elem? ps k ≡ some p) × (test p ≡ true))

pub seats_from-Passes :
    (test : Player → Bool) (i : ℕ) (ps : List Player)
    → All (Passes test ps i) (seats_from test i ps)
unfolding seats_from
seats_from-Passes test i [] = tt
seats_from-Passes test i (p ∷ ps) =
    let rest =
      All-map (Passes test ps (suc i)) (Passes test (p ∷ ps) i) (seats_from test (suc i) ps)
        (λ j (k, e, (q, f, t)). (suc k, omega arith, (q, f, t)))
        (seats_from-Passes test (suc i) ps) in
    elim (Bool-cases (test p)) [
      | inl e ↦ rw e ((0, omega arith, (p, refl, e)), rest)
      | inr e ↦ rw e rest
    ]

-- What all members have in common holds of one.
pub contains-All {κ} :
    (P : ℕ → Type κ) (x : ℕ) (xs : List ℕ) → contains x xs ≡ true → All P xs → P x
contains-All P x [] h a = cc
contains-All P x (y ∷ ys) h a = elim (Bool-cases (x == y)) [
  | inl e ↦ let k : y ≡ x = ground arith in subst P k a.0
  | inr e ↦ contains-All P x ys (ground arith) a.1
]

pub length-seats_from :
    (test : Player → Bool) (i : ℕ) (ps : List Player)
    → length (seats_from test i ps) ≡ length (keep_if test ps)
unfolding seats_from
length-seats_from test i [] = refl
length-seats_from test i (p ∷ ps) = ground (arith, length-seats_from test (suc i) ps)

-- A write of a seat.
pub sum_of-set :
    (f : Player → ℕ) (ps : List Player) (i : ℕ) (p q : Player)
    → get_elem? ps i ≡ some p
    → sum_of f (set ps i q) + f p ≡ sum_of f ps + f q
sum_of-set f [] i p q h = cc
sum_of-set f (r ∷ ps) zero p q h = ground arith
sum_of-set f (r ∷ ps) (suc i) p q h = omega (arith, sum_of-set f ps i p q h)

pub ids_of-set :
    (ps : List Player) (i : ℕ) (p q : Player)
    → get_elem? ps i ≡ some p
    → q.id ≡ p.id
    → ids_of (set ps i q) ≡ ids_of ps
ids_of-set [] i p q h e = refl
ids_of-set (r ∷ ps) zero p q h e = ground arith
ids_of-set (r ∷ ps) (suc i) p q h e = ap (◌∷◌ r.id) (ids_of-set ps i p q h e)

pub seats_from-set :
    (test : Player → Bool) (j : ℕ) (ps : List Player) (i : ℕ) (p q : Player)
    → get_elem? ps i ≡ some p
    → test q ≡ test p
    → seats_from test j (set ps i q) ≡ seats_from test j ps
unfolding seats_from
seats_from-set test j [] i p q h e = refl
seats_from-set test j (r ∷ ps) zero p q h e = ground arith
seats_from-set test j (r ∷ ps) (suc i) p q h e =
    ground (arith, seats_from-set test (suc j) ps i p q h e)

pub All-set {κ} :
    (P : Player → Type κ) (ps : List Player) (i : ℕ) (q : Player)
    → All P ps
    → P q
    → All P (set ps i q)
All-set P [] i q a h = tt
All-set P (r ∷ ps) zero q a h = (h, a.1)
All-set P (r ∷ ps) (suc i) q a h = (a.0, All-set P ps i q a.1 h)

pub length-ids_of : (ps : List Player) → length (ids_of ps) ≡ length ps
length-ids_of [] = refl
length-ids_of (p ∷ ps) = ap suc (length-ids_of ps)

pub All-get_elem {κ} :
    (P : Player → Type κ) (ps : List Player) (i : ℕ) (p : Player)
    → All P ps
    → get_elem? ps i ≡ some p
    → P p
All-get_elem P [] i p a h = cc
All-get_elem P (r ∷ ps) zero p a h = subst P (some-injective r p h) a.0
All-get_elem P (r ∷ ps) (suc i) p a h = All-get_elem P ps i p a.1 h

-- Every member of a list is in it.
pub All-contains_self : (xs : List ℕ) → All (λ x. contains x xs ≡ true) xs
All-contains_self xs = go xs (λ x h. h)
  where
    go :
        (ys : List ℕ)
        → ((x : ℕ) → contains x ys ≡ true → contains x xs ≡ true)
        → All (λ x. contains x xs ≡ true) ys
    go [] f = tt
    go (y ∷ ys) f = (f y (ground arith), go ys (λ x h. f x (ground arith)))
