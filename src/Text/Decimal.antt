-- ===== src/Text/Decimal.antt =====
-- The digits of a number, as `str` writes them and `int` reads them.
use wbauth.Prelude.{
  ℕ, zero, suc, ◌+◌, ◌/◌, ◌%◌, ◌<◌, ◌≡◌, ◌∙◌, ap, Bool-cases, inl, inr, [], ◌∷◌, ltb, arith,
}
use wbauth.Text.{Text, digits_from, decimal}
use wbauth.Matching.{number_from}

number-digits_from :
    (fuel n : ℕ) (out : Text)
    → n < fuel
    → number_from 0 (digits_from fuel n out) ≡ number_from n out
unfolding digits_from
number-digits_from zero n out h = absurd (omega arith)
number-digits_from (suc fuel) n out h = elim (Bool-cases (ltb n 10)) [
  | inl small ↦ rw small (ap (λ m. number_from m out) (omega arith))
  | inr large ↦
      let big : n / 10 < fuel = ground (arith, large) in
      rw large (
        number-digits_from fuel (n / 10) ((b'0' + n % 10) ∷ out) big
        ∙ ap (λ m. number_from m out) (omega arith))
]

-- A number can be read back from its digits: the fuel of `decimal` is enough.
pub number-decimal : (n : ℕ) → number_from 0 (decimal n) ≡ n
unfolding decimal
number-decimal n = number-digits_from (suc n) n [] (omega arith)
