-- ===== src/Policy/Verdict/Paths/Covering.antt =====
-- `_path_covers` compares whole segments, and rules without a path are site-wide.
use wbauth.Prelude.{
  true, false, ◌≡◌, ◌⊎◌, inl, inr, ◌↔◌, ◌∙◌, ◌∷◌, ◌++◌, append_assoc, arith, Bool-cases,
}
use wbauth.Text.{Text, str, text_eq, starts_with, ends_with}
use wbauth.Text.Laws.{text_eq_iff, text_eq_self, starts_with_sound, starts_with-append}
use wbauth.Policy.Verdict.Paths.{path_covers}

-- `target` is the rule's path, or lies below it: what follows begins a new segment.
abbrev pub Below : Text → Text → Type 0
Below rule target =
    (ends_with rule (str "/") ≡ true) × ((r : Text) × (target ≡ rule ++ r))
    ⊎ (ends_with rule (str "/") ≡ false)
      × ((target ≡ rule) ⊎ ((r : Text) × (target ≡ rule ++ b'/' ∷ r)))

path_covers_sound : (p t : Text) → path_covers p t ≡ true → Below p t
unfolding path_covers
path_covers_sound p t h = elim (Bool-cases (ends_with p (str "/"))) [
  | inl slash ↦ inl (slash, starts_with_sound t p (ground arith))
  | inr bare ↦ elim (Bool-cases (text_eq t p)) [
    | inl same ↦ inr (bare, inl ((text_eq_iff t p).0 same))
    | inr other ↦
        let (r, e) = starts_with_sound t (p ++ str "/") (ground arith) in
        inr (bare, inr (r, e ∙ append_assoc p (str "/") r))
  ]
]

path_covers_complete : (p t : Text) → Below p t → path_covers p t ≡ true
unfolding path_covers
path_covers_complete p t (inl (slash, (r, e))) = rw (slash, e) (starts_with-append p r)
path_covers_complete p t (inr (bare, inl e)) = rw (bare, e, text_eq_self p)
path_covers_complete p t (inr (bare, inr (r, e))) =
    let s : starts_with t (p ++ str "/") ≡ true =
      rw (e, ← append_assoc p (str "/") r) (starts_with-append (p ++ str "/") r) in
    ground arith

-- `_path_covers p t` holds exactly when `t` is `p` or lies below it: where `p` ends with a slash,
-- when `t` begins with `p`; where it does not, when `t` is `p` or begins with `p` and a slash.
path_covers_iff : (p t : Text) → (path_covers p t ≡ true) ↔ Below p t
path_covers_iff p t = (path_covers_sound p t, path_covers_complete p t)
