-- ===== src/Decisions/Answer.antt =====
-- `Player._parse_llm_response` of poker/player_models.py from the decoded JSON on. Finding the JSON
-- in the answer is the work of regular expressions and of the json module: the parameter here is
-- what they give, `none` where they find nothing or raise. So is `int_of`, what `int` reads in a
-- text, `none` where it raises ValueError.
use adk_poker.Base.{
  ℕ, zero, suc, ◌*◌, ◌/◌, Bool, true, false, ◌||◌, List, [], ◌∷◌, map, if◌then◌else◌, ltb, Option,
  none, some, Text, codes, same_text, to_lower,
}
use adk_poker.Base.Int.{ℤ, pos, negsuc, ltb_ℤ}
use adk_poker.Result.{Result, ok, raise, value_error, type_error, overflow_error, ◌>>=◌}
use adk_poker.Game.Offer.{Offer, offer_call, offer_raise}

-- A float: `fraction n d` is n / (d + 1), below 0 it is -(n / (d + 1)). The json module also decodes
-- the two infinities and the one that is no number.
pub data Float : Type 0 where
  fraction minus_fraction : ℕ → ℕ → Float
  infinity minus_infinity nan : Float

-- A decoded value; `collection` is any list or dict.
pub data Json : Type 0 where
  null collection : Json
  boolean : Bool → Json
  integer : ℤ → Json
  float : Float → Json
  text : Text → Json

-- The values of the keys "action" and "amount", where they are.
pub record Answer : Type 0 where
  pub action : Option Json
  pub amount : Option Json

pub record Parsed : Type 0 where
  pub action : Text
  pub amount : ℤ

abbrev pub parsed : Text → ℤ → Parsed
parsed action amount = record { action = action; amount = amount }

-- The number in the first offer of a call, or else the amount of the answer.
unfoldable pub call_amount : List Offer → Json → Json
call_amount [] amount = amount
call_amount (offer_call n ∷ offers) amount = integer (pos n)
call_amount (_ ∷ offers) amount = call_amount offers amount

-- `min_raise`: the number in the first offer of a raise, or else 0.
unfoldable pub min_raise : List Offer → ℕ
min_raise [] = 0
min_raise (offer_raise n ∷ offers) = n
min_raise (_ ∷ offers) = min_raise offers

-- `decision.get("action", "fold").lower()`: only a text has this method. The AttributeError of the
-- others is caught as a ValueError is, and is one here.
abbrev pub action_text : Option Json → Result Text
action_text none = ok (codes "fold")
action_text (some (text t)) = ok (map to_lower t)
action_text (some _) = raise value_error

-- `decision.get("amount", 0)`
abbrev pub amount_or_zero : Option Json → Json
amount_or_zero none = integer (pos 0)
amount_or_zero (some n) = n

abbrev pub minus : ℕ → ℤ
minus zero = pos 0
minus (suc n) = negsuc n

-- `int(amount)`, which cuts a float off towards 0.
unfoldable pub int_of_json : (Text → Option ℤ) → Json → Result ℤ
int_of_json int_of null = raise type_error
int_of_json int_of collection = raise type_error
int_of_json int_of (boolean b) = ok (if b then pos 1 else pos 0)
int_of_json int_of (integer n) = ok n
int_of_json int_of (float (fraction n d)) = ok (pos (n / suc d))
int_of_json int_of (float (minus_fraction n d)) = ok (minus (n / suc d))
int_of_json int_of (float infinity) = raise overflow_error
int_of_json int_of (float minus_infinity) = raise overflow_error
int_of_json int_of (float nan) = raise value_error
int_of_json int_of (text t) = elim (int_of t) [ none ↦ raise value_error | some n ↦ ok n ]

-- `amount < m`, for an m above 0.
unfoldable pub below : Json → ℕ → Result Bool
below null m = raise type_error
below collection m = raise type_error
below (boolean b) m = ok (ltb (if b then 1 else 0) m)
below (integer n) m = ok (ltb_ℤ n (pos m))
below (float (fraction n d)) m = ok (ltb n (m * suc d))
below (float (minus_fraction n d)) m = ok true
below (float infinity) m = ok false
below (float minus_infinity) m = ok true
below (float nan) m = ok false
below (text t) m = raise type_error

-- The amount of a raise: `if min_raise > 0 and amount < min_raise`.
unfoldable pub raise_amount : ℕ → Json → Result Json
unfolding below
raise_amount m amount =
    if ltb 0 m
    then (below amount m >>= λ less. ok (if less then integer (pos m) else amount))
    else ok amount

-- The normalisation of an action and its amount.
unfoldable pub normalize_answer : ℕ → List Offer → Text → Json → Result (Text × Json)
unfolding call_amount min_raise raise_amount
normalize_answer chips offers action amount =
    if same_text action (codes "fold") || same_text action (codes "check")
    then ok (action, integer (pos 0))
    else if same_text action (codes "call")
    then ok (action, call_amount offers amount)
    else if same_text action (codes "all_in") || same_text action (codes "all-in")
    then ok (codes "all_in", integer (pos chips))
    else if same_text action (codes "raise")
    then (raise_amount (min_raise offers) amount >>= λ n. ok (action, n))
    else ok (action, amount)

-- What stands in the `try`, from the decoded JSON on.
unfoldable pub decide : (Text → Option ℤ) → ℕ → List Offer → Answer → Result Parsed
unfolding normalize_answer int_of_json
decide int_of chips offers answer = do
  action ← action_text answer.action
  (action', amount) ← normalize_answer chips offers action (amount_or_zero answer.amount)
  n ← int_of_json int_of amount
  ok (parsed action' n)

abbrev pub folded : Parsed
folded = parsed (codes "fold") (pos 0)

-- `except (json.JSONDecodeError, ValueError, AttributeError)`, and the fold that follows it.
unfoldable pub or_fold : Result Parsed → Result Parsed
or_fold (ok r) = ok r
or_fold (raise value_error) = ok folded
or_fold (raise e) = raise e

-- `_parse_llm_response`
unfoldable pub parse_answer : (Text → Option ℤ) → ℕ → List Offer → Option Answer → Result Parsed
unfolding decide or_fold
parse_answer int_of chips offers none = ok folded
parse_answer int_of chips offers (some answer) = or_fold (decide int_of chips offers answer)
