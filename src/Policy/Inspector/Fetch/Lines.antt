-- ===== src/Policy/Inspector/Fetch/Lines.antt =====
-- The cut of a robots.txt that is too long at its last line break, in policy/inspector.py.
use wbauth.Prelude.{
  ℕ, Bool, true, false, not, ◌≡◌, ◌⊎◌, inl, inr, refl, ap, ◌∙◌, sym, List, [], ◌∷◌, ◌++◌, arith,
  all, drop_while, reverse, append-nil, is_empty, Bool-cases, if◌then◌else◌,
}
use mathlib.Core.List.{reverse-cons, reverse-append, reverse-reverse}
use wbauth.Text.{Text}
use wbauth.Text.Ranges.{all-reverse}
use wbauth.Policy.Inspector.Fetch.{whole_lines, is_newline}

module _ {A : Type 0} (p : A → Bool) where
  drop_while_split : (xs : List A) → (w : List A) × (xs ≡ w ++ drop_while p xs) × (all p w ≡ true)
  drop_while_split [] = ([], refl, refl)
  drop_while_split (x ∷ xs) = elim (Bool-cases (p x)) [
    | inl dropped ↦
        let (w, e, h) = drop_while_split xs in
        (x ∷ w, rw dropped (ap (λ r. x ∷ r) e), ground (arith, dropped, h))
    | inr kept ↦ ([], rw kept refl, refl)
  ]

  drop_while_head : (xs : List A) (y : A) (ys : List A) → drop_while p xs ≡ y ∷ ys → p y ≡ false
  drop_while_head [] y ys h = absurd (cc)
  drop_while_head (x ∷ xs) y ys h = elim (Bool-cases (p x)) [
    | inl dropped ↦ drop_while_head xs y ys (rw dropped at h)
    | inr kept ↦ let same : x ≡ y = ground (arith, kept) in rw (← same) kept
  ]

-- a character within a line
abbrev pub in_line : ℕ → Bool
in_line c = not (is_newline c)

-- The text ends with a line break.
abbrev pub EndsLine : Text → Type 0
EndsLine body = (b : Text) × (body ≡ b ++ 10 ∷ [])

-- The body is what is left of a buffer without its last line, which has no line break; a buffer of
-- a single line is left whole.
abbrev pub IsCut : (buf body : Text) → Type 0
IsCut buf body =
    (rest : Text) × (buf ≡ body ++ rest)
    × (all in_line rest ≡ true)
    × (EndsLine body ⊎ ((rest ≡ []) × (all in_line body ≡ true)))

remainder-IsCut :
    (buf w left : Text)
    → reverse buf ≡ w ++ left
    → all in_line w ≡ true
    → ((y : ℕ) → (ys : Text) → left ≡ y ∷ ys → in_line y ≡ false)
    → IsCut buf (if is_empty left then buf else reverse left)
remainder-IsCut buf w [] e h head = ([], sym (append-nil buf), refl, inr (refl, whole))
  where
    whole : all in_line buf ≡ true
    whole =
        ap (all in_line) (sym (reverse-reverse buf))
        ∙ all-reverse in_line (reverse buf) (ap (all in_line) (e ∙ append-nil w) ∙ h)
remainder-IsCut buf w (y ∷ ys) e h head = (
  reverse w,
  sym (reverse-reverse buf) ∙ ap reverse e ∙ reverse-append w (y ∷ ys),
  all-reverse in_line w h,
  inl (reverse ys, reverse-cons y ys ∙ ap (λ c. reverse ys ++ c ∷ []) is_break),
)
  where
    is_break : y ≡ 10
    is_break = ground (arith, head y ys refl)

pub whole_lines-IsCut : (buf : Text) → IsCut buf (whole_lines buf)
unfolding whole_lines
whole_lines-IsCut buf =
    let (w, e, h) = drop_while_split in_line (reverse buf) in
    remainder-IsCut buf w (drop_while in_line (reverse buf)) e h
      (drop_while_head in_line (reverse buf))
