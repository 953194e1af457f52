-- ===== src/History/Hands.antt =====
-- The rows of the table hands of poker/game_history.py, and the search for one.
use adk_poker.Base.{
  ℕ, zero, suc, ◌+◌, ◌≤◌, ◌<◌, ◌≡◌, refl, ap, inl, inr, List, [], ◌∷◌, ◌++◌, map, arith, ◌==◌,
  if◌then◌else◌, length, Bool-cases, none, some, Option, false,
}
use adk_poker.History.{HandRow, end_rows}
use adk_poker.History.Reads.{find_hand, max_id}
use adk_poker.History.Book.{end_of}

-- The numbers from `i` on, `n` of them.
abbrev pub counted : ℕ → ℕ → List ℕ
counted i zero = []
counted i (suc n) = i ∷ counted (suc i) n

pub counted-snoc : (i n : ℕ) → counted i n ++ (i + n) ∷ [] ≡ counted i (suc n)
counted-snoc i zero = ap (λ k. k ∷ []) (omega arith)
counted-snoc i (suc n) =
    let k : i + suc n ≡ suc i + n = omega arith in rw k (ap (◌∷◌ i) (counted-snoc (suc i) n))

pub length-counted : (i n : ℕ) → length (counted i n) ≡ n
length-counted i zero = refl
length-counted i (suc n) = ap suc (length-counted (suc i) n)

pub max_id-counted : (i n : ℕ) → max_id (counted (suc i) (suc n)) ≡ suc i + n
max_id-counted i zero = omega arith
max_id-counted i (suc n) = omega (arith, max_id-counted (suc i) n)

abbrev pub ids : List HandRow → List ℕ
ids = map (λ (row : HandRow). row.hand_id)

pub ids-append :
    (xs : List HandRow) (row : HandRow) → ids (xs ++ row ∷ []) ≡ ids xs ++ row.hand_id ∷ []
ids-append [] row = refl
ids-append (x ∷ xs) row = ap (◌∷◌ x.hand_id) (ids-append xs row)

pub length-ids : (xs : List HandRow) → length (ids xs) ≡ length xs
length-ids [] = refl
length-ids (x ∷ xs) = ap suc (length-ids xs)

pub ids-end_rows : (hand_id : ℕ) (rows : List HandRow) → ids (end_rows hand_id rows) ≡ ids rows
unfolding end_rows
ids-end_rows hand_id [] = refl
ids-end_rows hand_id (row ∷ rows) = elim (Bool-cases (row.hand_id == hand_id)) [
  | inl e ↦ rw e (ap (◌∷◌ row.hand_id) (ids-end_rows hand_id rows))
  | inr e ↦ rw e (ap (◌∷◌ row.hand_id) (ids-end_rows hand_id rows))
]

pub find_hand-counted :
    (rows : List HandRow) (i n id : ℕ)
    → ids rows ≡ counted i n
    → i ≤ id
    → id < i + n
    → (row : HandRow) × (find_hand id rows ≡ some row) × (row.hand_id ≡ id)
unfolding find_hand
find_hand-counted [] i zero id e h k = absurd (omega arith)
find_hand-counted [] i (suc n) id e h k = absurd (cc)
find_hand-counted (row ∷ rows) i zero id e h k = absurd (omega arith)
find_hand-counted (row ∷ rows) i (suc n) id e h k =
    let front : row.hand_id ≡ i = cc in
    let back : ids rows ≡ counted (suc i) n = cc in
    elim (Bool-cases (row.hand_id == id)) [
      | inl f ↦ rw f (row, refl, ground arith)
      | inr f ↦ rw f (find_hand-counted rows (suc i) n id back (ground arith) (omega arith))
    ]

-- A hand id above those of the rows is found in none of them.
pub find_hand-fresh :
    (rows : List HandRow) (i n id : ℕ)
    → ids rows ≡ counted i n
    → i + n ≤ id
    → find_hand id rows ≡ none
unfolding find_hand
find_hand-fresh [] i n id e h = refl
find_hand-fresh (row ∷ rows) i zero id e h = absurd cc
find_hand-fresh (row ∷ rows) i (suc n) id e h =
    let front : row.hand_id ≡ i = cc in
    let back : ids rows ≡ counted (suc i) n = cc in
    let apart : (row.hand_id == id) ≡ false = ground arith in
    rw apart (find_hand-fresh rows (suc i) n id back (omega arith))

-- The first of two.
abbrev pub or_else : Option HandRow → Option HandRow → Option HandRow
or_else none o = o
or_else (some row) o = some row

pub find_hand-snoc :
    (id : ℕ) (row : HandRow) (rows : List HandRow)
    → find_hand id (rows ++ row ∷ [])
      ≡ or_else (find_hand id rows) (if row.hand_id == id then some row else none)
unfolding find_hand
find_hand-snoc id row [] = refl
find_hand-snoc id row (r ∷ rows) = elim (Bool-cases (r.hand_id == id)) [
  | inl e ↦ rw e refl
  | inr e ↦ rw e (find_hand-snoc id row rows)
]

pub find_hand-end_rows :
    (hand_id id : ℕ) (rows : List HandRow)
    → find_hand id (end_rows hand_id rows)
      ≡ (if hand_id == id then end_of (find_hand id rows) else find_hand id rows)
unfolding find_hand end_rows
find_hand-end_rows hand_id id [] = elim (Bool-cases (hand_id == id)) [
  | inl e ↦ rw e refl
  | inr e ↦ rw e refl
]
find_hand-end_rows hand_id id (row ∷ rows) = elim (Bool-cases (row.hand_id == id)) [
  | inl e ↦
      let same : (row.hand_id == hand_id) ≡ (hand_id == id) = ground arith in
      elim (Bool-cases (hand_id == id)) [
        | inl f ↦ rw (same, f) (rw e refl)
        | inr f ↦ rw (same, f) (rw e refl)
      ]
  | inr e ↦ elim (Bool-cases (row.hand_id == hand_id)) [
    | inl f ↦ rw f (rw e (find_hand-end_rows hand_id id rows))
    | inr f ↦ rw f (rw e (find_hand-end_rows hand_id id rows))
  ]
]
