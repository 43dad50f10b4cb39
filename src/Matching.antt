-- ===== src/Matching.antt =====
-- The steps that the package's regular expressions are made of. A matcher returns what is left of
-- the text; every greedy part in use is followed by a part that it cannot have consumed, so a
-- matcher never has to give anything back.
use wbauth.Prelude.{
  ℕ, ◌+◌, ◌-◌, ◌*◌, Option, none, some, [], ◌∷◌, ◌==◌, if◌then◌else◌, drop_while, take_while,
  is_empty,
}
use wbauth.Text.{Text, lower_code, is_space, is_digit, is_word}

infixl 5 ◌>>=◌
abbrev pub ◌>>=◌ : {A B : Type 0} → Option A → (A → Option B) → Option B
none >>= f = none
some a >>= f = f a

-- a literal, whatever the case of the text
abbrev pub word : Text → Text → Option Text
word [] s = some s
word (c ∷ p) [] = none
word (c ∷ p) (a ∷ s) = let rest = word p s in if lower_code a == c then rest else none

-- `\s+` and `\s*`
abbrev pub spaces : Text → Option Text
spaces [] = none
spaces (a ∷ s) = if is_space a then some (drop_while is_space s) else none

abbrev pub spaces? : Text → Text
spaces? s = drop_while is_space s

-- `\b` behind a letter
abbrev pub boundary : Text → Option Text
boundary [] = some []
boundary (a ∷ s) = if is_word a then none else some (a ∷ s)

-- `x?` for one code point
abbrev pub optional : ℕ → Text → Text
optional c [] = []
optional c (a ∷ s) = if a == c then s else a ∷ s

-- the value of decimal digits
abbrev pub number_from : ℕ → Text → ℕ
number_from n [] = n
number_from n (c ∷ s) = number_from (n * 10 + (c - b'0')) s

-- `(\d+)`, as a number
abbrev pub digits : Text → Option ℕ
digits s = let d = take_while is_digit s in if is_empty d then none else some (number_from 0 d)
