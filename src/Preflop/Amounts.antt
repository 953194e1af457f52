-- ===== src/Preflop/Amounts.antt =====
-- The recommended moves and amounts: agents/team1_agent/preflop/tools/action_evaluator.py.
use adk_poker.Base.{
  ℕ, ◌+◌, ◌*◌, ◌≤◌, ◌≡◌, refl, max, Bool, true, false, List, [], ◌∷◌, arith, Option, none, some,
  Text,
}
use adk_poker.Result.{Result, ok, Yields, bind-Yields}
use adk_poker.Cards.{Card}
use adk_poker.Cards.Text.{card_text}
use adk_poker.Preflop.Classify.{classify_hand}
use adk_poker.Preflop.Printed.{classify_hand-shorthand}
use adk_poker.Preflop.Suggest.{
  Known, Move, fold, suggest, Suggestion, suggestion, adjusted, count_raises, analyze_position,
  evaluate_preflop_action,
}

abbrev pub is_fold : Move → Bool
is_fold fold = true
is_fold _ = false

suggest_limits :
    (n a stack to_call blind : ℕ)
    → let (move, amount) = suggest n a stack to_call blind in
      (amount ≤ max to_call (blind * 3) + stack)
      × (2 ≤ n → amount ≤ stack)
      × (is_fold move ≡ true → amount ≡ 0)
unfolding suggest
suggest_limits n a stack to_call blind = (ground arith, (λ h. ground arith), λ h. ground arith)

-- Stronger hands and fewer raises.
pub suggest_monotone :
    (m n a b stack to_call blind : ℕ)
    → a ≤ b
    → m ≤ n
    → is_fold (suggest m b stack to_call blind).0 ≡ true
    → is_fold (suggest n a stack to_call blind).0 ≡ true
unfolding suggest
suggest_monotone m n a b stack to_call blind h k f = ground arith

-- What a suggestion may say, with this stack, call and blind.
abbrev pub Limited : ℕ → ℕ → ℕ → Suggestion → Type 0
Limited stack to_call blind s =
    (s.recommended_amount ≤ max to_call (blind * 3) + stack)
    × (2 ≤ s.prior_raises → s.recommended_amount ≤ stack)
    × (is_fold s.recommended_action ≡ true → s.recommended_amount ≡ 0)

suggestion-Limited :
    (actions : List Text) (stack to_call blind a : ℕ)
    → Limited stack to_call blind (suggestion actions stack to_call blind a)
unfolding suggestion
suggestion-Limited actions stack to_call blind a =
    suggest_limits (count_raises actions) a stack to_call blind

-- The score is computed.
abbrev Computed {ℓ} : {A : Type ℓ} → Result A → Type ℓ
Computed = Yields (λ _. Unit {0})

module _ (c d : Card) (text text' : Text) (h : 2 ≤ c.rank) (k : c.rank ≤ 14) (h' : 2 ≤ d.rank)
    (k' : d.rank ≤ 14) (e : card_text c ≡ ok text) (e' : card_text d ≡ ok text') where
  analyze_position-Computed :
      (position : Text) → Computed (analyze_position (text ∷ text' ∷ []) position)
  unfolding analyze_position
  analyze_position-Computed position =
      bind-Yields (λ _. Unit {0}) (λ _. Unit {0}) (classify_hand (text ∷ text' ∷ []) position) _
        (_, classify_hand-shorthand c d text text' position h k h' k' e e', tt)
        λ hand_class _. (_, refl, tt)

  adjusted-Computed :
      (known : Option Known) (position : Text)
      → Computed (adjusted known (text ∷ text' ∷ []) position)
  unfolding adjusted
  adjusted-Computed (some known) position = (_, refl, tt)
  adjusted-Computed none position =
      bind-Yields (λ _. Unit {0}) (λ _. Unit {0}) (analyze_position (text ∷ text' ∷ []) position) _
        (analyze_position-Computed position) λ value _. (_, refl, tt)

  -- With two printed cards evaluate_preflop_action answers. The amount is 0 for a fold; after two
  -- raises or more it is at most the stack; and it is never above the stack together with the
  -- larger of the call and three blinds.
  pub evaluate_preflop_action-Limited :
      (position : Text) (actions : List Text) (stack to_call blind : ℕ) (known : Option Known)
      → Yields
          (Limited stack to_call blind)
          (evaluate_preflop_action (text ∷ text' ∷ []) position actions stack to_call blind known)
  unfolding evaluate_preflop_action
  evaluate_preflop_action-Limited position actions stack to_call blind known =
      bind-Yields (λ _. Unit {0}) (Limited stack to_call blind)
        (adjusted known (text ∷ text' ∷ []) position) _ (adjusted-Computed known position)
        λ a _. (_, refl, suggestion-Limited actions stack to_call blind a)
