-- ===== src/Decisions/Bounded.antt =====
-- The amounts that `_parse_llm_response` of poker/player_models.py lets through.
use adk_poker.Base.{
  ℕ, ◌<◌, ◌≡◌, refl, ap, sym, ◌∙◌, ◌⊎◌, inl, inr, true, false, List, Option, none, some, Text,
  codes, same_text, same_text-eq, Bool-cases,
}
use mathlib.Core.Path.{subst}
use adk_poker.Base.Int.{ℤ, pos, ◌≤ℤ◌}
use adk_poker.Result.{
  Result, Error, ok, raise, value_error, type_error, overflow_error, Yields, Result-cases, ◌>>=◌,
}
use adk_poker.Game.Offer.{Offer}
use adk_poker.Decisions.Answer.{
  Json, null, collection, boolean, integer, float, text, Answer, Parsed, parsed, folded, min_raise,
  below, normalize_answer, int_of_json, decide, or_fold, action_text, amount_or_zero, parse_answer,
}
use adk_poker.Decisions.Values.{
  IsOdd, int-cases, int-above, int_of_json-integer, raise_amount-cases, call_amount-IsOdd,
}

-- What holds of a decision, by its action.
abbrev pub Bounded : ℕ → List Offer → Parsed → Type 0
Bounded chips offers r =
    (same_text r.action (codes "fold") ≡ true → r.amount ≡ pos 0)
    × (same_text r.action (codes "check") ≡ true → r.amount ≡ pos 0)
    × (same_text r.action (codes "all_in") ≡ true → r.amount ≡ pos chips)
    × (same_text r.action (codes "raise") ≡ true
        → 0 < min_raise offers
        → pos (min_raise offers) ≤ℤ r.amount)

abbrev pub HasOdd : Option Answer → Type 0
HasOdd none = ⊥
HasOdd (some answer) = IsOdd (amount_or_zero answer.amount)

-- A bounded decision, or an exception for an odd amount.
abbrev pub Fits : ℕ → List Offer → Type 0 → Result Parsed → Type 0
Fits chips offers odd m =
    Yields (Bounded chips offers) m ⊎ (odd × ((m ≡ raise type_error) ⊎ (m ≡ raise overflow_error)))

folded-Bounded : (chips : ℕ) (offers : List Offer) → Bounded chips offers folded
folded-Bounded chips offers = ((λ _. refl), (λ _. refl), (λ k. cc), λ k. cc)

action_text-error : (o : Option Json) (x : Error) → action_text o ≡ raise x → x ≡ value_error
action_text-error none x e = cc
action_text-error (some null) x e = cc
action_text-error (some collection) x e = cc
action_text-error (some (boolean b)) x e = cc
action_text-error (some (integer n)) x e = cc
action_text-error (some (float f)) x e = cc
action_text-error (some (text t)) x e = cc

fold_back :
    (chips : ℕ) (offers : List Offer) (odd : Type 0)
    → Fits chips offers odd (or_fold (raise value_error))
unfolding or_fold
fold_back chips offers odd = inl (folded, refl, folded-Bounded chips offers)

-- What the normalisation makes of an amount, by the action.
abbrev Kept : ℕ → List Offer → Text × Json → Type 0
Kept chips offers (action, x) =
    (same_text action (codes "fold") ≡ true → x ≡ integer (pos 0))
    × (same_text action (codes "check") ≡ true → x ≡ integer (pos 0))
    × (same_text action (codes "all_in") ≡ true → x ≡ integer (pos chips))
    × (same_text action (codes "raise") ≡ true
        → 0 < min_raise offers
        → below x (min_raise offers) ≡ ok false)

-- An odd value comes from the answer, or is why the comparison raises.
abbrev Normal : ℕ → List Offer → Json → Result (Text × Json) → Type 0
Normal chips offers amount m =
    ((r : Text × Json) × (m ≡ ok r) × Kept chips offers r × (IsOdd r.1 → IsOdd amount))
    ⊎ ((m ≡ raise type_error) × IsOdd amount)

named {ℓ} :
    (P : Text → Type ℓ) (action name : Text) → same_text action name ≡ true → P name → P action
named P action name h p = subst P (sym (same_text-eq action name h)) p

module _ (chips : ℕ) (offers : List Offer) (amount : Json) where
  abbrev NormalFor : Text → Type 0
  NormalFor action = Normal chips offers amount (normalize_answer chips offers action amount)

  raise-Normal : NormalFor (codes "raise")
  unfolding normalize_answer
  raise-Normal = elim (raise_amount-cases (min_raise offers) amount) [
    | inl (x, e, bound, o) ↦
        inl ((codes "raise", x), rw e refl, ((λ k. cc), (λ k. cc), (λ k. cc), λ _. bound), o)
    | inr (e, o) ↦ inr (rw e refl, o)
  ]

  other-Normal :
      (action : Text)
      → same_text action (codes "fold") ≡ false
      → same_text action (codes "check") ≡ false
      → same_text action (codes "call") ≡ false
      → same_text action (codes "all_in") ≡ false
      → same_text action (codes "raise") ≡ false
      → same_text action (codes "all-in") ≡ false
      → NormalFor action
  unfolding normalize_answer
  other-Normal action a b c d e f =
      rw (a, b, c, d, e, f)
        (inl ((action, amount), refl, ((λ h. cc), (λ h. cc), (λ h. cc), λ h. cc), λ o. o))

  known-Normal :
      NormalFor (codes "fold")
      × NormalFor (codes "check")
      × NormalFor (codes "call")
      × NormalFor (codes "all_in")
      × NormalFor (codes "all-in")
  unfolding normalize_answer
  known-Normal = (
    inl (_, refl, ((λ _. refl), (λ _. refl), (λ k. cc), λ k. cc), λ o. absurd o),
    inl (_, refl, ((λ _. refl), (λ _. refl), (λ k. cc), λ k. cc), λ o. absurd o),
    inl (_, refl, ((λ k. cc), (λ k. cc), (λ k. cc), λ k. cc), call_amount-IsOdd offers amount),
    inl (_, refl, ((λ k. cc), (λ k. cc), (λ _. refl), λ k. cc), λ o. absurd o),
    inl (_, refl, ((λ k. cc), (λ k. cc), (λ _. refl), λ k. cc), λ o. absurd o),
  )

  normalize_answer-Normal : (action : Text) → NormalFor action
  normalize_answer-Normal action =
      let (of_fold, of_check, of_call, of_all_in, of_all-in) = known-Normal in
      elim (Bool-cases (same_text action (codes "fold"))) [
        | inl h ↦ named NormalFor action (codes "fold") h of_fold
        | inr a ↦ elim (Bool-cases (same_text action (codes "check"))) [
          | inl h ↦ named NormalFor action (codes "check") h of_check
          | inr b ↦ elim (Bool-cases (same_text action (codes "call"))) [
            | inl h ↦ named NormalFor action (codes "call") h of_call
            | inr c ↦ elim (Bool-cases (same_text action (codes "all_in"))) [
              | inl h ↦ named NormalFor action (codes "all_in") h of_all_in
              | inr d ↦ elim (Bool-cases (same_text action (codes "raise"))) [
                | inl h ↦ named NormalFor action (codes "raise") h raise-Normal
                | inr e ↦ elim (Bool-cases (same_text action (codes "all-in"))) [
                  | inl h ↦ named NormalFor action (codes "all-in") h of_all-in
                  | inr f ↦ other-Normal action a b c d e f
                ]
              ]
            ]
          ]
        ]
      ]

  -- The end of the `try`: the amount becomes an integer.
  ended-Fits :
      (int_of : Text → Option ℤ) (r : Text × Json)
      → Kept chips offers r
      → (IsOdd r.1 → IsOdd amount)
      → Fits chips offers
          (IsOdd amount)
          (or_fold (int_of_json int_of r.1 >>= λ n. ok (parsed r.0 n)))
  unfolding or_fold
  ended-Fits int_of r (f, c, a, b) o = elim (int-cases int_of r.1) [
    | inl (n, e) ↦ rw e (
        inl (
          parsed r.0 n,
          refl,
          (
            (λ h. exact (pos 0) (f h) n e),
            (λ h. exact (pos 0) (c h) n e),
            (λ h. exact (pos chips) (a h) n e),
            λ h k. int-above int_of r.1 (min_raise offers) n (b h k) e,
          ),
        ))
    | inr (inl e) ↦ rw e (inl (folded, refl, folded-Bounded chips offers))
    | inr (inr (odd, inl e)) ↦ rw e (inr (o odd, inl refl))
    | inr (inr (odd, inr e)) ↦ rw e (inr (o odd, inr refl))
  ]
    where
      exact : (k : ℤ) → r.1 ≡ integer k → (n : ℤ) → int_of_json int_of r.1 ≡ ok n → n ≡ k
      exact k same n e =
          let whole = int_of_json-integer int_of k in
          let run : int_of_json int_of (integer k) ≡ ok n = rw same at e in cc

  normalized-Fits :
      (int_of : Text → Option ℤ) (action : Text)
      → Fits chips offers (IsOdd amount) (
          or_fold (
            normalize_answer chips offers action amount >>= λ r.
            int_of_json int_of r.1 >>= λ n. ok (parsed r.0 n)))
  unfolding or_fold
  normalized-Fits int_of action = elim (normalize_answer-Normal action) [
    | inl (r, e, k, o) ↦ rw e (ended-Fits int_of r k o)
    | inr (e, o) ↦ rw e (inr (o, inl refl))
  ]

-- Whatever a language model answers, the decision is bounded by its action: a fold or a check has
-- the amount 0, all_in the player's chips, and a raise no less than the total in the first offer
-- of a raise, if there is such an offer above 0. Or a TypeError or an OverflowError is raised; but
-- then the amount of the answer is null, a text, a list, a dict or infinite.
pub parse_answer-Bounded :
    (int_of : Text → Option ℤ) (chips : ℕ) (offers : List Offer) (answer : Option Answer)
    → Fits chips offers (HasOdd answer) (parse_answer int_of chips offers answer)
unfolding parse_answer decide
parse_answer-Bounded int_of chips offers none = inl (folded, refl, folded-Bounded chips offers)
parse_answer-Bounded int_of chips offers (some answer) =
    elim (Result-cases (action_text answer.action)) [
      | inl (action, e) ↦
          rw e (normalized-Fits chips offers (amount_or_zero answer.amount) int_of action)
      | inr (x, e) ↦
          let always = action_text-error answer.action x e in
          let run : action_text answer.action ≡ raise value_error = e ∙ ap raise always in
          rw run (fold_back chips offers (HasOdd (some answer)))
    ]
