-- ===== src/Decisions/Values.antt =====
-- The values of an amount in a language model's answer: `_parse_llm_response` of
-- poker/player_models.py.
use native.Mathlib.Nat.{le-div_iff_mul-le}
use adk_poker.Base.{
  ℕ, suc, ◌*◌, ◌/◌, ◌≤◌, ◌<◌, ◌≡◌, [], ◌∷◌, refl, ap, ◌⊎◌, inl, inr, Bool, true, false, List, arith,
  ltb, Option, Text, Bool-cases, Option-cases,
}
use mathlib.Core.Path.{subst}
use adk_poker.Base.Int.{ℤ, pos, ◌≤ℤ◌, ltb_ℤ}
use adk_poker.Result.{ok, raise, value_error, type_error, overflow_error}
use adk_poker.Game.Offer.{Offer, offer_fold, offer_check, offer_call, offer_raise, offer_all_in}
use adk_poker.Decisions.Answer.{
  Json, null, collection, boolean, integer, float, text, fraction, minus_fraction, infinity,
  minus_infinity, nan, call_amount, below, raise_amount, int_of_json,
}

-- Values that are no number, and the infinities.
abbrev pub IsOdd : Json → Type 0
IsOdd null = Unit
IsOdd collection = Unit
IsOdd (boolean b) = ⊥
IsOdd (integer n) = ⊥
IsOdd (float (fraction n d)) = ⊥
IsOdd (float (minus_fraction n d)) = ⊥
IsOdd (float infinity) = Unit
IsOdd (float minus_infinity) = Unit
IsOdd (float nan) = ⊥
IsOdd (text t) = Unit

below-cases :
    (x : Json) (m : ℕ)
    → ((b : Bool) × (below x m ≡ ok b)) ⊎ ((below x m ≡ raise type_error) × IsOdd x)
unfolding below
below-cases null m = inr (refl, tt)
below-cases collection m = inr (refl, tt)
below-cases (boolean b) m = inl (_, refl)
below-cases (integer n) m = inl (_, refl)
below-cases (float (fraction n d)) m = inl (_, refl)
below-cases (float (minus_fraction n d)) m = inl (_, refl)
below-cases (float infinity) m = inl (_, refl)
below-cases (float minus_infinity) m = inl (_, refl)
below-cases (float nan) m = inl (_, refl)
below-cases (text t) m = inr (refl, tt)

pub int-cases :
    (int_of : Text → Option ℤ) (x : Json)
    → ((n : ℤ) × (int_of_json int_of x ≡ ok n))
      ⊎ ((int_of_json int_of x ≡ raise value_error)
          ⊎ (IsOdd x
              × ((int_of_json int_of x ≡ raise type_error)
                  ⊎ (int_of_json int_of x ≡ raise overflow_error))))
unfolding int_of_json
int-cases int_of null = inr (inr (tt, inl refl))
int-cases int_of collection = inr (inr (tt, inl refl))
int-cases int_of (boolean b) = inl (_, refl)
int-cases int_of (integer n) = inl (_, refl)
int-cases int_of (float (fraction n d)) = inl (_, refl)
int-cases int_of (float (minus_fraction n d)) = inl (_, refl)
int-cases int_of (float infinity) = inr (inr (tt, inr refl))
int-cases int_of (float minus_infinity) = inr (inr (tt, inr refl))
int-cases int_of (float nan) = inr (inl refl)
int-cases int_of (text t) = elim (Option-cases (int_of t)) [
  | inl e ↦ inr (inl (rw (int_of_json, e) refl))
  | inr (n, e) ↦ inl (n, rw (int_of_json, e) refl)
]

-- A value that is not below a number stays so when it is cut off.
pub int-above :
    (int_of : Text → Option ℤ) (x : Json) (m : ℕ) (n : ℤ)
    → below x m ≡ ok false
    → int_of_json int_of x ≡ ok n
    → pos m ≤ℤ n
unfolding below int_of_json
int-above int_of null m n h e = cc
int-above int_of collection m n h e = cc
int-above int_of (boolean true) m n h e =
    let k : pos 1 ≡ n = cc in
    let l : ltb 1 m ≡ false = cc in subst (λ x. pos m ≤ℤ x) k (ground (arith, l))
int-above int_of (boolean false) m n h e =
    let k : pos 0 ≡ n = cc in
    let l : ltb 0 m ≡ false = cc in subst (λ x. pos m ≤ℤ x) k (ground (arith, l))
int-above int_of (integer k) m n h e =
    let same : k ≡ n = cc in
    let l : ltb_ℤ k (pos m) ≡ false = cc in subst (λ x. pos m ≤ℤ x) same (ground (arith, l))
int-above int_of (float (fraction k d)) m n h e =
    let same : pos (k / suc d) ≡ n = cc in
    let l : ltb k (m * suc d) ≡ false = cc in
    let cut : m ≤ k / suc d =
      (le-div_iff_mul-le {k = suc d} {x = m} {y = k} (omega arith)).1 (ground (arith, l)) in
    subst (λ x. pos m ≤ℤ x) same (omega (arith, cut))
int-above int_of (float (minus_fraction k d)) m n h e = cc
int-above int_of (float infinity) m n h e = cc
int-above int_of (float minus_infinity) m n h e = cc
int-above int_of (float nan) m n h e = cc
int-above int_of (text t) m n h e = cc

pub int_of_json-integer : (int_of : Text → Option ℤ) (k : ℤ) → int_of_json int_of (integer k) ≡ ok k
unfolding int_of_json
int_of_json-integer int_of k = refl

below_self : (m : ℕ) → below (integer (pos m)) m ≡ ok false
unfolding below
below_self m = ap ok (ground arith)

-- The amount of a raise is not below the least one, if there is one.
pub raise_amount-cases :
    (m : ℕ) (amount : Json)
    → ((x : Json) × (raise_amount m amount ≡ ok x)
        × (0 < m → below x m ≡ ok false)
        × (IsOdd x → IsOdd amount))
      ⊎ ((raise_amount m amount ≡ raise type_error) × IsOdd amount)
unfolding raise_amount
raise_amount-cases m amount = elim (Bool-cases (ltb 0 m)) [
  | inr e ↦ inl (amount, rw e refl, (λ h. absurd (ground (arith, e, h))), λ o. o)
  | inl e ↦ elim (below-cases amount m) [
    | inr (b, o) ↦ inr (rw (e, b) refl, o)
    | inl (true, b) ↦ inl (integer (pos m), rw (e, b) refl, (λ _. below_self m), λ o. absurd o)
    | inl (false, b) ↦ inl (amount, rw (e, b) refl, (λ _. b), λ o. o)
  ]
]

pub call_amount-IsOdd :
    (offers : List Offer) (amount : Json) → IsOdd (call_amount offers amount) → IsOdd amount
unfolding call_amount
call_amount-IsOdd [] amount o = o
call_amount-IsOdd (offer_call n ∷ offers) amount o = absurd o
call_amount-IsOdd (offer_fold ∷ offers) amount o = call_amount-IsOdd offers amount o
call_amount-IsOdd (offer_check ∷ offers) amount o = call_amount-IsOdd offers amount o
call_amount-IsOdd (offer_raise n ∷ offers) amount o = call_amount-IsOdd offers amount o
call_amount-IsOdd (offer_all_in n ∷ offers) amount o = call_amount-IsOdd offers amount o
