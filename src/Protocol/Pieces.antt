-- ===== src/Protocol/Pieces.antt =====
-- The matchers of verifier.py on a text that is made of a part they match and the rest.
use wbauth.Prelude.{
  ℕ, zero, suc, ◌+◌, ◌-◌, ◌/◌, ◌%◌, ◌<◌, Bool, true, false, ◌≡◌, refl, inl, inr, [], ◌∷◌, ◌++◌, ltb,
  arith, all, length, length-append, take-append, take_while, drop_while, Bool-cases,
}
use wbauth.Text.{Text, is_digit, decimal, digits_from}
use wbauth.Verifier.Parse.{consumed}

pub length-diff : (u rest : Text) → length (u ++ rest) - length rest ≡ length u
length-diff u rest = omega (arith, length-append u rest)

pub consumed-append : (u rest : Text) → consumed (u ++ rest) rest ≡ u
consumed-append u rest = rw (length-diff u rest) (take-append u rest)

module _ (p : ℕ → Bool) where
  pub drop_while-append :
      (u : Text) (c : ℕ) (rest : Text)
      → all p u ≡ true
      → p c ≡ false
      → drop_while p (u ++ c ∷ rest) ≡ c ∷ rest
  drop_while-append [] c rest h k = rw k
  drop_while-append (a ∷ u) c rest h k = ground (arith, drop_while-append u c rest)

  pub take_while-append :
      (u : Text) (c : ℕ) (rest : Text)
      → all p u ≡ true
      → p c ≡ false
      → take_while p (u ++ c ∷ rest) ≡ u
  take_while-append [] c rest h k = rw k
  take_while-append (a ∷ u) c rest h k = ground (arith, take_while-append u c rest)

-- The digits of a number are digits, and there is one.
abbrev pub IsNumeral : Text → Type 0
IsNumeral [] = ⊥
IsNumeral (a ∷ s) = (is_digit a ≡ true) × (all is_digit s ≡ true)

digits_from-IsNumeral :
    (fuel n : ℕ) (out : Text)
    → n < fuel
    → all is_digit out ≡ true
    → IsNumeral (digits_from fuel n out)
unfolding digits_from
digits_from-IsNumeral zero n out h k = absurd (omega arith)
digits_from-IsNumeral (suc fuel) n out h k = elim (Bool-cases (ltb n 10)) [
  | inl small ↦ rw small (ground arith, k)
  | inr large ↦
      rw large
        (digits_from-IsNumeral fuel (n / 10) ((b'0' + n % 10) ∷ out) (ground arith) (ground arith))
]

pub decimal-IsNumeral : (n : ℕ) → IsNumeral (decimal n)
unfolding decimal
decimal-IsNumeral n = digits_from-IsNumeral (suc n) n [] (omega arith) refl
