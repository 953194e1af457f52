-- ===== src/Base/Texts.antt =====
-- Texts as lists of code points, with the Python string methods that the modelled code calls. Only
-- the ASCII letters have another case here, and the Kelvin sign, whose small letter is k: the code
-- looks a letter up, or looks for an ASCII word, after it has changed the case, and no other
-- character turns into a letter it looks for.
use Prim.Native.Nat.{ℕ, ◌+◌, ◌-◌}
use Prim.Native.Char.{code}
use Prim.Native.String.{String}
use mathlib.Core.Path.{◌≡◌, refl}
use native.Mathlib.Omega.{arith}
use mathlib.Core.Bool.{Bool, true, false, not, ◌&&◌, ◌||◌}
use mathlib.Core.List.{List, [], ◌∷◌}
use mathlib.Core.Option.{Option, none, some}
use adk_poker.Base.Tests.{leb, ◌==◌, if◌then◌else◌}
use adk_poker.Base.Lists.{keep_if}

abbrev pub Text : Type 0
Text = List ℕ

abbrev pub codes : String → Text
codes String.[] = []
codes (String.◌∷◌ c s) = code c ∷ codes s

abbrev pub same_text : Text → Text → Bool
same_text [] [] = true
same_text (x ∷ xs) (y ∷ ys) = let rest = same_text xs ys in if x == y then rest else false
same_text _ _ = false

abbrev pub is_empty {ℓ} : {A : Type ℓ} → List A → Bool
is_empty [] = true
is_empty (_ ∷ _) = false

-- `str.isspace`, of one character
abbrev pub is_space : ℕ → Bool
is_space c =
    leb 9 c && leb c 13
    || (leb 28 c && leb c 32)
    || c == 133
    || c == 160
    || c == 5760
    || (leb 8192 c && leb c 8202)
    || (leb 8232 c && leb c 8233)
    || c == 8239
    || c == 8287
    || c == 12288

abbrev pub strip_left : Text → Text
strip_left [] = []
strip_left (c ∷ s) = let rest = strip_left s in if is_space c then rest else c ∷ s

abbrev pub strip_right : Text → Text
strip_right [] = []
strip_right (c ∷ s) =
    let rest = strip_right s in if is_space c && is_empty rest then [] else c ∷ rest

-- `text.strip()`
abbrev pub strip : Text → Text
strip s = strip_right (strip_left s)

-- `text.replace(c, "")`, of one character
abbrev pub remove : ℕ → Text → Text
remove c = keep_if (λ d. not (d == c))

abbrev pub to_lower : ℕ → ℕ
to_lower c = if leb b'A' c && leb c b'Z' then c + 32 else if c == 8490 then b'k' else c

abbrev pub to_upper : ℕ → ℕ
to_upper c = if leb b'a' c && leb c b'z' then c - 32 else c

-- `text[-1]` of `c ∷ s`, and `text[:-1]`
abbrev pub last_of : ℕ → Text → ℕ
last_of c [] = c
last_of c (d ∷ s) = last_of d s

abbrev pub drop_last : Text → Text
drop_last [] = []
drop_last (c ∷ []) = []
drop_last (c ∷ d ∷ s) = c ∷ drop_last (d ∷ s)

abbrev pub starts_with : Text → Text → Bool
starts_with [] s = true
starts_with (c ∷ p) [] = false
starts_with (c ∷ p) (d ∷ s) = let rest = starts_with p s in if c == d then rest else false

-- `part in text`
abbrev pub occurs_in : Text → Text → Bool
occurs_in part [] = is_empty part
occurs_in part (c ∷ s) =
    let rest = occurs_in part s in if starts_with part (c ∷ s) then true else rest

-- `d.get(k)` of a dict keyed by texts
abbrev pub text_lookup {ℓ} : {V : Type ℓ} → Text → List (Text × V) → Option V
text_lookup k [] = none
text_lookup k ((j, v) ∷ d) = let rest = text_lookup k d in if same_text j k then some v else rest

pub same_text-eq : (s t : Text) → same_text s t ≡ true → s ≡ t
same_text-eq [] [] h = refl
same_text-eq [] (y ∷ t) h = cc
same_text-eq (x ∷ s) [] h = cc
same_text-eq (x ∷ s) (y ∷ t) h = ground (arith, same_text-eq s t)

pub same_text_self : (s : Text) → same_text s s ≡ true
same_text_self [] = refl
same_text_self (x ∷ s) = ground (arith, same_text_self s)
