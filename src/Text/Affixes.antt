-- ===== src/Text/Affixes.antt =====
-- Suffixes: `endswith` finds exactly the last part.
use mathlib.Core.List.{reverse-append, reverse-reverse}
use wbauth.Prelude.{true, ◌≡◌, sym, ap, ◌∙◌, ◌++◌, reverse}
use wbauth.Text.{Text, ends_with}
use wbauth.Text.Laws.{starts_with_sound, starts_with-append}

pub ends_with_sound : (s p : Text) → ends_with s p ≡ true → (r : Text) × (s ≡ r ++ p)
unfolding ends_with
ends_with_sound s p h =
    let (r, e) = starts_with_sound (reverse s) (reverse p) h in
    (
      reverse r,
      sym (reverse-reverse s)
          ∙ ap reverse e
          ∙ reverse-append (reverse p) r
          ∙ ap (λ x. reverse r ++ x) (reverse-reverse p),
    )

pub ends_with-append : (r p : Text) → ends_with (r ++ p) p ≡ true
unfolding ends_with
ends_with-append r p = rw (reverse-append r p) (starts_with-append (reverse p) (reverse r))
