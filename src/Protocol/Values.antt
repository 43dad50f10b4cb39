-- ===== src/Protocol/Values.antt =====
-- The values of the parameters: a string that `_sf_string` writes and a number that `str` writes
-- are matched whole by `_PARAM` of verifier.py, and read back.
use wbauth.Prelude.{
  ℕ, true, false, ◌≡◌, refl, sym, ap, ◌∙◌, inl, inr, none, some, [], ◌∷◌, ◌++◌, ◌==◌, arith, all,
  Bool-cases, append_assoc,
}
use wbauth.Text.{Text, is_digit, decimal, starts_with}
use wbauth.Text.Decimal.{number-decimal}
use wbauth.Matching.{number_from}
use wbauth.StructuredFields.{quote, backslash, is_printable, sf_string, unquote}
use wbauth.StructuredFields.Strings.{escaped, replace-replace, unquote-sf_string}
use wbauth.Verifier.Parse.{
  string_end, sf_string_end, number_end, value_end, digits_end, minus_end, param_of, pos, text,
}
use wbauth.Protocol.Pieces.{IsNumeral, decimal-IsNumeral, drop_while-append}

string_end-escaped : (s rest : Text) → string_end false (escaped s ++ quote ∷ rest) ≡ some rest
unfolding string_end escaped
string_end-escaped [] rest = refl
string_end-escaped (c ∷ s) rest =
    let ih = string_end-escaped s rest in
    elim (Bool-cases (c == backslash)) [
      | inl slash ↦ rw slash ih
      | inr plain ↦ elim (Bool-cases (c == quote)) [
        | inl mark ↦ rw (plain, mark) ih
        | inr letter ↦ rw (plain, letter) (rw (letter, plain) ih)
      ]
    ]

-- A string as it is written: a quote, the escaped text, and a quote.
pub sf_string-escaped :
    (value wire : Text) → sf_string value ≡ some wire → wire ≡ quote ∷ escaped value ++ quote ∷ []
unfolding sf_string
sf_string-escaped value wire h = elim (Bool-cases (all is_printable value)) [
  | inl good ↦ sym (ap (λ t. quote ∷ t ++ quote ∷ []) (sym (replace-replace value)) ∙ ground arith)
  | inr bad ↦ absurd (ground arith)
]

pub sf_string_end-sf_string :
    (value wire rest : Text)
    → sf_string value ≡ some wire
    → sf_string_end (wire ++ rest) ≡ some rest
unfolding sf_string_end
sf_string_end-sf_string value wire rest h =
    rw (sf_string-escaped value wire h, append_assoc (escaped value) (quote ∷ []) rest)
      (string_end-escaped value rest)

value_end_of_string : (s rest : Text) → sf_string_end s ≡ some rest → value_end s ≡ some rest
unfolding value_end
value_end_of_string s rest h = ground (arith, h)

pub value_end-sf_string :
    (value wire rest : Text) → sf_string value ≡ some wire → value_end (wire ++ rest) ≡ some rest
value_end-sf_string value wire rest h =
    value_end_of_string (wire ++ rest) rest (sf_string_end-sf_string value wire rest h)

starts_with-sf_string :
    (value wire : Text) → sf_string value ≡ some wire → starts_with wire (quote ∷ []) ≡ true
unfolding starts_with
starts_with-sf_string value wire h = rw (sf_string-escaped value wire h) refl

param_of_string :
    (s : Text) → starts_with s (quote ∷ []) ≡ true → param_of (some s) ≡ text (unquote s)
unfolding param_of
param_of_string s h = ground (arith, h)

pub param_of-sf_string :
    (value wire : Text) → sf_string value ≡ some wire → param_of (some wire) ≡ text value
param_of-sf_string value wire h =
    param_of_string wire (starts_with-sf_string value wire h)
    ∙ ap text (unquote-sf_string value wire h)

-- no numeral starts with a minus sign or a quote
digit-plain :
    (a : ℕ)
    → is_digit a ≡ true
    → ((a == b'-') ≡ false) × ((a == quote) ≡ false) × (is_digit b';' ≡ false)
digit-plain a h = ground arith

digits_end-numeral :
    (s rest : Text) → IsNumeral s → digits_end (s ++ b';' ∷ rest) ≡ some (b';' ∷ rest)
digits_end-numeral [] rest h = absurd h
digits_end-numeral (a ∷ s) rest (h, k) =
    rw h (ap some (drop_while-append is_digit s b';' rest k refl))

minus_end-numeral : (s rest : Text) → IsNumeral s → minus_end (s ++ rest) ≡ s ++ rest
minus_end-numeral [] rest h = absurd h
minus_end-numeral (a ∷ s) rest (h, k) =
    let (minus, mark, semi) = digit-plain a h in rw (minus_end, minus) refl

number_end-numeral :
    (s rest : Text) → IsNumeral s → number_end (s ++ b';' ∷ rest) ≡ some (b';' ∷ rest)
unfolding number_end
number_end-numeral s rest h =
    rw (number_end, minus_end-numeral s (b';' ∷ rest) h, digits_end-numeral s rest h) refl

value_end_of_number :
    (s rest : Text) → sf_string_end s ≡ none → number_end s ≡ some rest → value_end s ≡ some rest
unfolding value_end
value_end_of_number s rest h k = ground (arith, h, k)

value_end-numeral :
    (s rest : Text) → IsNumeral s → value_end (s ++ b';' ∷ rest) ≡ some (b';' ∷ rest)
unfolding sf_string_end
value_end-numeral [] rest h = absurd h
value_end-numeral (a ∷ s) rest h =
    let (minus, mark, semi) = digit-plain a h.0 in
    value_end_of_number _ _ (rw mark refl) (number_end-numeral (a ∷ s) rest h)

pub value_end-decimal :
    (n : ℕ) (rest : Text) → value_end (decimal n ++ b';' ∷ rest) ≡ some (b';' ∷ rest)
value_end-decimal n rest = value_end-numeral (decimal n) rest (decimal-IsNumeral n)

param_of-numeral : (s : Text) → IsNumeral s → param_of (some s) ≡ pos (number_from 0 s)
unfolding param_of starts_with
param_of-numeral [] h = absurd h
param_of-numeral (a ∷ s) (h, k) =
    let (minus, mark, semi) = digit-plain a h in rw (mark, minus) (rw (minus_end, minus, h, k) refl)

pub param_of-decimal : (n : ℕ) → param_of (some (decimal n)) ≡ pos n
param_of-decimal n = param_of-numeral (decimal n) (decimal-IsNumeral n) ∙ ap pos (number-decimal n)
