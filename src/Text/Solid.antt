-- ===== src/Text/Solid.antt =====
-- Texts that `strip` leaves as they are.
use mathlib.Core.List.{reverse-append, reverse-reverse}
use wbauth.Prelude.{ℕ, Bool, true, false, not, ◌≡◌, refl, ap, [], ◌∷◌, ◌++◌, arith}
use wbauth.Text.{Text, is_space, strip, lstrip, rstrip, rstrip_of}

-- the last character is there and no space
abbrev pub ends_solid : Text → Bool
ends_solid [] = false
ends_solid (a ∷ []) = not (is_space a)
ends_solid (a ∷ (b ∷ s)) = ends_solid (b ∷ s)

pub ends_solid-append : (u s : Text) → ends_solid s ≡ true → ends_solid (u ++ s) ≡ true
ends_solid-append [] s h = h
ends_solid-append (a ∷ []) [] h = absurd (cc)
ends_solid-append (a ∷ []) (b ∷ s) h = h
ends_solid-append (a ∷ (b ∷ u)) s h = ends_solid-append (b ∷ u) s h

ends_solid_last :
    (s : Text)
    → ends_solid s ≡ true
    → (u : Text) × (z : ℕ) × (s ≡ u ++ z ∷ []) × (is_space z ≡ false)
ends_solid_last [] h = absurd (cc)
ends_solid_last (a ∷ []) h = ([], a, refl, ground arith)
ends_solid_last (a ∷ (b ∷ s)) h =
    let (u, z, e, k) = ends_solid_last (b ∷ s) h in (a ∷ u, z, ap (λ t. a ∷ t) e, k)

rstrip_solid : (s : Text) → ends_solid s ≡ true → rstrip s ≡ s
unfolding rstrip rstrip_of
rstrip_solid s h =
    let (u, z, e, k) = ends_solid_last s h in
    rw (e, reverse-append u (z ∷ []), k)
      (rw (← reverse-append u (z ∷ [])) (reverse-reverse (u ++ z ∷ [])))

-- A text without a space at its ends is what `strip` leaves of it.
pub strip_solid :
    (a : ℕ) (s : Text) → is_space a ≡ false → ends_solid (a ∷ s) ≡ true → strip (a ∷ s) ≡ a ∷ s
unfolding strip lstrip
strip_solid a s k h = rw k (rstrip_solid (a ∷ s) h)
