-- ===== src/StructuredFields/Strings.antt =====
-- Reading back a string that was written.
use wbauth.Prelude.{
  ℕ, ◌-◌, true, false, ◌≡◌, refl, sym, ap, ◌∙◌, some, [], ◌∷◌, ◌++◌, ◌==◌, arith, if◌then◌else◌,
  all, length, length-append, Bool-cases, inl, inr, ==_iff, suc, take-append,
}
use wbauth.Text.{Text}
use wbauth.StructuredFields.{
  quote, backslash, is_printable, replace, sf_string, unescape, inner, unquote,
}

-- the two replacements at once
unfoldable pub escaped : Text → Text
escaped [] = []
escaped (c ∷ s) =
    if c == backslash
    then backslash ∷ (backslash ∷ escaped s)
    else if c == quote
    then backslash ∷ (quote ∷ escaped s)
    else c ∷ escaped s

pub replace-replace :
    (s : Text)
    → replace quote (backslash ∷ quote ∷ []) (replace backslash (backslash ∷ backslash ∷ []) s)
      ≡ escaped s
unfolding replace escaped
replace-replace [] = refl
replace-replace (c ∷ s) = elim (Bool-cases (c == backslash)) [
  | inl slash ↦ rw slash (ap (λ t. backslash ∷ (backslash ∷ t)) (replace-replace s))
  | inr plain ↦ elim (Bool-cases (c == quote)) [
    | inl mark ↦ rw (plain, mark) (ap (λ t. backslash ∷ (quote ∷ t)) (replace-replace s))
    | inr letter ↦ rw (plain, letter) (ap (λ t. c ∷ t) (replace-replace s))
  ]
]

unescape-plain : (c : ℕ) (s : Text) → (c == backslash) ≡ false → unescape (c ∷ s) ≡ c ∷ unescape s
unfolding unescape
unescape-plain c [] h = refl
unescape-plain c (d ∷ s) h = rw h

unescape-escaped : (s : Text) → all is_printable s ≡ true → unescape (escaped s) ≡ s
unfolding unescape escaped
unescape-escaped [] h = refl
unescape-escaped (c ∷ s) h =
    let ih = unescape-escaped s (ground arith) in
    elim (Bool-cases (c == backslash)) [
      | inl slash ↦ rw slash (ground (arith, ih, ==_iff c backslash))
      | inr plain ↦ elim (Bool-cases (c == quote)) [
        | inl mark ↦ rw (plain, mark) (ground (arith, ih, ==_iff c quote))
        | inr letter ↦ rw (plain, letter) (unescape-plain c (escaped s) plain ∙ ap (λ t. c ∷ t) ih)
      ]
    ]

inner-quoted : (s : Text) → inner (quote ∷ s ++ quote ∷ []) ≡ s
unfolding inner
inner-quoted s =
    let n : length (s ++ quote ∷ []) ≡ suc (length s) =
      omega (arith, length-append s (quote ∷ [])) in
    let m : length (quote ∷ s ++ quote ∷ []) - 1 ≡ suc (length s) = omega arith in
    rw (m, take-append s (quote ∷ []))

-- What `_sf_string` writes, `_unquote` reads back.
pub unquote-sf_string : (value wire : Text) → sf_string value ≡ some wire → unquote wire ≡ value
unfolding sf_string unquote
unquote-sf_string value wire h = elim (Bool-cases (all is_printable value)) [
  | inl good ↦
      let w : quote ∷ escaped value ++ quote ∷ [] ≡ wire =
        ap (λ t. quote ∷ t ++ quote ∷ []) (sym (replace-replace value)) ∙ ground arith in
      rw (← w, inner-quoted (escaped value)) (unescape-escaped value good)
  | inr bad ↦ absurd (ground arith)
]
