-- ===== src/Verifier/Keys/Published.antt =====
-- What `Verifier._resolve` of verifier.py gives without a resolver.
use wbauth.Prelude.{
  true, ◌≡◌, refl, sym, ap, ◌∙◌, Option, none, some, List, [], ◌∷◌, is_empty, In, Option-cases,
  Bool-cases, inl, inr, arith,
}
use wbauth.Text.{Text}
use wbauth.Text.Laws.{text_eq_iff}
use wbauth.Json.{Json, obj, members}
use wbauth.Verifier.Checks.{accepted}
use wbauth.Verifier.Keys.{Source, thumbprint, is_key_of, key_among, resolve}
use wbauth.Verifier.Verify.Authentic.{bind-accepted}

-- the key has the id as its thumbprint
abbrev pub IsNamed : Source → Text → Json → Type 0
IsNamed source kid (obj ms) = thumbprint source (members ms) ≡ some kid
IsNamed source kid _ = ⊥

is_key_of-IsNamed :
    (source : Source) (kid : Text) (k : Json) → is_key_of source kid k ≡ true → IsNamed source kid k
unfolding is_key_of
is_key_of-IsNamed source kid (obj ms) e = elim (Option-cases (thumbprint source (members ms))) [
  | inl missing ↦ absurd (ground (arith, missing))
  | inr (t, named) ↦ named ∙ ap some ((text_eq_iff t kid).0 (ground (arith, named)))
]
is_key_of-IsNamed source kid k e = absurd (cc)

key_among-IsNamed :
    (source : Source) (kid : Text) (k : Json) (ks : List Json)
    → key_among source kid ks ≡ accepted k
    → In k ks × IsNamed source kid k
unfolding key_among
key_among-IsNamed source kid k [] e = absurd (cc)
key_among-IsNamed source kid k (j ∷ ks) e = elim (Bool-cases (is_key_of source kid j)) [
  | inl holds ↦
      let same : j ≡ k = ground (arith, holds) in
      (inl (sym same), rw (← same) (is_key_of-IsNamed source kid j holds))
  | inr fails ↦
      let (there, named) = key_among-IsNamed source kid k ks (rw fails at e) in (inr there, named)
]

-- Without a resolver, the key that is found was published by the directory of the Signature-Agent
-- that the request names, and the key id is its thumbprint.
pub resolve-IsNamed :
    (source : Source) (kid : Text) (agent : Option Text) (k : Json)
    → source.key_resolver ≡ none
    → resolve source kid agent ≡ accepted k
    → (a : Text) × (ks : List Json) × (agent ≡ some a)
      × (source.published a ≡ accepted ks)
      × In k ks
      × IsNamed source kid k
unfolding resolve
resolve-IsNamed source kid none k own e = absurd (ground (arith, own))
resolve-IsNamed source kid (some a) k own e = elim (Bool-cases (is_empty a)) [
  | inl blank ↦ absurd (ground (arith, own, blank))
  | inr given ↦
      let (ks, listed, rest) =
        bind-accepted (source.published a) (key_among source kid) k (rw (own, given) at e) in
      let (there, named) = key_among-IsNamed source kid k ks rest in
      (a, ks, refl, listed, there, named)
]
