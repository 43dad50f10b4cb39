-- ===== src/Text/Ranges.antt =====
-- Tests that hold of all characters of a text.
use wbauth.Prelude.{
  ℕ, Bool, true, false, ◌&&◌, ◌≡◌, refl, sym, ap, ◌∙◌, List, [], ◌∷◌, ◌++◌, arith, all, drop_while,
  reverse,
}
use mathlib.Core.List.{reverse-cons, reverse-append, reverse-reverse}
use wbauth.Text.{Text, rstrip_of}

module _ {A : Type 0} (p : A → Bool) where
  pub all-append : (xs ys : List A) → all p (xs ++ ys) ≡ (all p xs && all p ys)
  all-append [] ys = refl
  all-append (x ∷ xs) ys = ground (arith, all-append xs ys)

  pub all-reverse : (xs : List A) → all p xs ≡ true → all p (reverse xs) ≡ true
  all-reverse [] h = refl
  all-reverse (x ∷ xs) h =
      ap (all p) (reverse-cons x xs)
      ∙ all-append (reverse xs) (x ∷ [])
      ∙ ground (arith, h, all-reverse xs)

  drop_while-all : (xs ys : List A) → all p xs ≡ true → drop_while p (xs ++ ys) ≡ drop_while p ys
  drop_while-all [] ys h = refl
  drop_while-all (x ∷ xs) ys h = ground (arith, drop_while-all xs ys)

-- `rstrip` takes a whole end of such characters off, and stops at another one.
pub rstrip_of-append :
    (p : ℕ → Bool) (u : Text) (z : ℕ) (end : Text)
    → p z ≡ false
    → all p end ≡ true
    → rstrip_of p ((u ++ z ∷ []) ++ end) ≡ u ++ z ∷ []
unfolding rstrip_of
rstrip_of-append p u z end stop h =
    ap (λ t. reverse (drop_while p t)) (reverse-append (u ++ z ∷ []) end)
    ∙ ap reverse (drop_while-all p (reverse end) (reverse (u ++ z ∷ [])) (all-reverse p end h))
    ∙ ap (λ t. reverse (drop_while p t)) (reverse-append u (z ∷ []))
    ∙ rw stop (ap reverse (sym (reverse-append u (z ∷ []))) ∙ reverse-reverse (u ++ z ∷ []))
