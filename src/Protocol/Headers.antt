-- ===== src/Protocol/Headers.antt =====
-- What `_lower` of verifier.py makes of the headers that `sign` of signer.py leaves.
use wbauth.Prelude.{
  true, false, ◌≡◌, refl, ap, ◌∙◌, Option, none, some, [], ◌∷◌, arith, if◌then◌else◌, Bool-cases,
  inl, inr,
}
use wbauth.Text.{Text, text_eq, lower, strip}
use wbauth.Text.Laws.{text_eq_iff}
use wbauth.Dict.{text_keys, get, put}
use wbauth.Dict.Laws.{get-put}
use wbauth.Signer.{Headers, header, is_resign_header, drop_stale}
use wbauth.Verifier.Checks.{joined_value, lower_headers}

-- the value of the lower-case name, from the headers that spell it, in their order
abbrev pub gathered : (name : Text) → Headers → Option Text → Option Text
gathered name [] out = out
gathered name ((k, v) ∷ headers) out =
    gathered name headers (if text_eq (lower k) name then some (joined_value out v) else out)

module _ (name k v : Text) (out : Headers) where
  get-put_joined :
      get name (put (lower k) (joined_value (get (lower k) out) v) out)
      ≡ (if text_eq (lower k) name then some (joined_value (get name out) v) else get name out)
  get-put_joined =
      get-put (lower k) name (joined_value (get (lower k) out) v) out
      ∙ ground (arith, text_eq_iff (lower k) name)

pub get-lower_headers :
    (name : Text) (headers : Headers) (out : Headers)
    → get name (lower_headers headers out) ≡ gathered name headers (get name out)
unfolding lower_headers
get-lower_headers name [] out = refl
get-lower_headers name ((k, v) ∷ headers) out =
    get-lower_headers name headers (put (lower k) (joined_value (get (lower k) out) v) out)
    ∙ ap (gathered name headers) (get-put_joined name k v out)

-- no header spells the name
abbrev pub Unspelled : (name : Text) → Headers → Type 0
Unspelled name [] = Unit
Unspelled name ((k, v) ∷ headers) = (text_eq (lower k) name ≡ false) × Unspelled name headers

module _ (name : Text) where
  gathered-Unspelled :
      (headers : Headers) (out : Option Text)
      → Unspelled name headers
      → gathered name headers out ≡ out
  gathered-Unspelled [] out h = refl
  gathered-Unspelled ((k, v) ∷ headers) out (h, i) = rw h (gathered-Unspelled headers out i)

  -- A header of another name does not count.
  pub gathered-put_other :
      (k v : Text) (headers : Headers) (out : Option Text)
      → text_eq (lower k) name ≡ false
      → gathered name (put k v headers) out ≡ gathered name headers out
  unfolding put
  gathered-put_other k v [] out h = rw h refl
  gathered-put_other k v ((j, w) ∷ headers) out h = elim (Bool-cases (text_eq j k)) [
    | inl same ↦
        let e = (text_eq_iff j k).0 same in
        let i : text_eq (lower j) name ≡ false = ap (λ t. text_eq (lower t) name) e ∙ h in
        rw same (rw (gathered, i) refl)
    | inr other ↦ rw other (gathered-put_other k v headers _ h)
  ]

  -- The only header of the name gives its value.
  pub gathered-put_only :
      (k v : Text) (headers : Headers)
      → text_eq (lower k) name ≡ true
      → Unspelled name headers
      → gathered name (put k v headers) none ≡ some (strip v)
  unfolding put
  gathered-put_only k v [] h i = rw h refl
  gathered-put_only k v ((j, w) ∷ headers) h (i, is) = elim (Bool-cases (text_eq j k)) [
    | inl same ↦
        let e = (text_eq_iff j k).0 same in
        let bad : text_eq (lower j) name ≡ true = ap (λ t. text_eq (lower t) name) e ∙ h in
        absurd (cc)
    | inr other ↦ rw other (rw (gathered, i) (gathered-put_only k v headers h is))
  ]

  pub Unspelled-drop_stale :
      (headers : Headers)
      → ((k : Text) → is_resign_header k ≡ false → text_eq (lower k) name ≡ false)
      → Unspelled name (drop_stale headers)
  unfolding drop_stale
  Unspelled-drop_stale [] h = tt
  Unspelled-drop_stale ((k, v) ∷ headers) h = elim (Bool-cases (is_resign_header k)) [
    | inl stale ↦ rw stale (Unspelled-drop_stale headers h)
    | inr fresh ↦ rw fresh (h k fresh, Unspelled-drop_stale headers h)
  ]

  -- The headers that are dropped do not spell it.
  pub gathered-drop_stale :
      (headers : Headers) (out : Option Text)
      → ((k : Text) → is_resign_header k ≡ true → text_eq (lower k) name ≡ false)
      → gathered name (drop_stale headers) out ≡ gathered name headers out
  unfolding drop_stale
  gathered-drop_stale [] out h = refl
  gathered-drop_stale ((k, v) ∷ headers) out h = elim (Bool-cases (is_resign_header k)) [
    | inl stale ↦ rw (stale, h k stale) (gathered-drop_stale headers out h)
    | inr fresh ↦ rw fresh (gathered-drop_stale headers _ h)
  ]

  pub header-drop_stale :
      (headers : Headers)
      → ((k : Text) → is_resign_header k ≡ true → text_eq (lower k) name ≡ false)
      → header (drop_stale headers) name ≡ header headers name
  unfolding drop_stale header
  header-drop_stale [] h = refl
  header-drop_stale ((k, v) ∷ headers) h = elim (Bool-cases (is_resign_header k)) [
    | inl stale ↦ rw (stale, h k stale) (header-drop_stale headers h)
    | inr fresh ↦
        rw fresh
          (ap (λ o. if text_eq (lower k) name then some v else o) (header-drop_stale headers h))
  ]

  pub header-put_other :
      (k v : Text) (headers : Headers)
      → text_eq (lower k) name ≡ false
      → header (put k v headers) name ≡ header headers name
  unfolding put header
  header-put_other k v [] h = rw h refl
  header-put_other k v ((j, w) ∷ headers) h = elim (Bool-cases (text_eq j k)) [
    | inl same ↦
        let e = (text_eq_iff j k).0 same in
        let i : text_eq (lower j) name ≡ false = ap (λ t. text_eq (lower t) name) e ∙ h in
        rw same (rw (header, i) refl)
    | inr other ↦
        rw other
          (ap (λ o. if text_eq (lower j) name then some w else o) (header-put_other k v headers h))
  ]

  pub Unspelled-put :
      (k v : Text) (headers : Headers)
      → text_eq (lower k) name ≡ false
      → Unspelled name headers
      → Unspelled name (put k v headers)
  unfolding put
  Unspelled-put k v [] h i = (h, tt)
  Unspelled-put k v ((j, w) ∷ headers) h (i, is) = elim (Bool-cases (text_eq j k)) [
    | inl same ↦ rw same (i, is)
    | inr other ↦ rw other (i, Unspelled-put k v headers h is)
  ]
