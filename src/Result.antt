-- ===== src/Result.antt =====
-- Python exceptions as values: the exceptions that the modelled code can raise, and the chain of
-- calls that stops at the first one.
use adk_poker.Base.{◌≡◌, refl, ◌⊎◌, inl, inr, List, [], ◌∷◌, Option, none, some}

-- `unmodelled` is no exception: the source goes on there, with a value that the model has no type
-- for.
pub data Error : Type 0 where
  value_error index_error key_error zero_division type_error overflow_error unmodelled : Error

pub data Result {ℓ} (A : Type ℓ) : Type ℓ where
  ok : A → Result A
  raise : Error → Result A

infixl 5 ◌>>=◌
abbrev pub ◌>>=◌ {ℓ κ} : {A : Type ℓ} {B : Type κ} → Result A → (A → Result B) → Result B
ok a >>= f = f a
raise e >>= f = raise e

-- `xs[0]`
abbrev pub first {ℓ} : {A : Type ℓ} → List A → Result A
first [] = raise index_error
first (x ∷ xs) = ok x

abbrev pub or_raise {ℓ} : {A : Type ℓ} → Option A → Error → Result A
or_raise none e = raise e
or_raise (some a) e = ok a

-- `[f(x) for x in xs]`
abbrev pub traverse {ℓ κ} : {A : Type ℓ} {B : Type κ} → (A → Result B) → List A → Result (List B)
traverse f [] = ok []
traverse f (x ∷ xs) = do y ← f x; ys ← traverse f xs; ok (y ∷ ys)

-- The call does not raise, and its result has the property.
abbrev pub Yields {ℓ κ} : {A : Type ℓ} → (A → Type κ) → Result A → Type (ℓ ⊔ κ)
Yields {A = A} P m = (a : A) × (m ≡ ok a) × P a

pub Result-cases {ℓ} :
    {A : Type ℓ} (m : Result A) → ((a : A) × (m ≡ ok a)) ⊎ ((e : Error) × (m ≡ raise e))
Result-cases (ok a) = inl (a, refl)
Result-cases (raise e) = inr (e, refl)

pub bind-Yields {ℓ κ μ ν} :
    {A : Type ℓ} {B : Type κ} (P : A → Type μ) (Q : B → Type ν) (m : Result A) (f : A → Result B)
    → Yields P m
    → ((a : A) → P a → Yields Q (f a))
    → Yields Q (m >>= f)
bind-Yields P Q m f (a, e, h) next = let (b, e', k) = next a h in (b, rw e e', k)
