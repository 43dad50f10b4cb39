-- ===== src/Protocol/Lowered.antt =====
-- The headers that `sign` of signer.py leaves, after `_lower` of verifier.py.
use wbauth.Prelude.{
  Bool, true, false, ◌||◌, ◌≡◌, refl, sym, ap, ◌∙◌, none, some, [], arith, Bool-cases, inl, inr,
}
use wbauth.Text.{Text, str, text_eq, lower, strip}
use wbauth.Text.Laws.{text_eq_iff}
use wbauth.Dict.{text_keys, get, put}
use wbauth.Signer.{Headers, header, is_resign_header}
use wbauth.Signer.Inversion.{agent_headers}
use wbauth.Verifier.Checks.{lower_headers}
use wbauth.Protocol.Headers.{
  get-lower_headers, gathered-put_other, gathered-put_only, Unspelled-drop_stale,
  gathered-drop_stale, header-drop_stale, header-put_other, Unspelled-put,
}

module _ (k : Text) (fresh : is_resign_header k ≡ false) where
  not_resign :
      (text_eq (lower k) (str "signature") ≡ false)
      × (text_eq (lower k) (str "signature-input") ≡ false)
      × (text_eq (lower k) (str "signature-agent") ≡ false)
  unfolding is_resign_header
  not_resign = (ground arith, ground arith, ground arith)

abbrev resign : Text → Bool
resign l =
    text_eq l (str "signature")
    || text_eq l (str "signature-input")
    || text_eq l (str "signature-agent")

resign_not_digest :
    (k : Text) → is_resign_header k ≡ true → text_eq (lower k) (str "content-digest") ≡ false
unfolding is_resign_header text_eq
resign_not_digest k h = elim (Bool-cases (text_eq (lower k) (str "content-digest"))) [
  | inr other ↦ other
  | inl same ↦
      let e = (text_eq_iff (lower k) (str "content-digest")).0 same in
      absurd (cc (sym (ap resign e) ∙ h))
]

module _ (headers : Headers) (agent input signature : Text) where
  abbrev pub signed_headers : Headers
  signed_headers =
      put (str "Signature") signature
        (put (str "Signature-Input") input (agent_headers agent headers))

  -- The verifier sees the three values that the signer wrote, whatever the request carried before.
  pub get-lower_headers-signature :
      get (str "signature") (lower_headers signed_headers []) ≡ some (strip signature)
  unfolding get lower text_eq
  get-lower_headers-signature =
      let name = str "signature" in
      get-lower_headers name signed_headers []
      ∙ gathered-put_only name (str "Signature") signature _ refl (
          Unspelled-put name (str "Signature-Input") input _ refl (
            Unspelled-put name (str "Signature-Agent") agent _ refl
              (Unspelled-drop_stale name headers (λ k h. (not_resign k h).0))))

  pub get-lower_headers-signature_input :
      get (str "signature-input") (lower_headers signed_headers []) ≡ some (strip input)
  unfolding get lower text_eq
  get-lower_headers-signature_input =
      let name = str "signature-input" in
      get-lower_headers name signed_headers []
      ∙ gathered-put_other name (str "Signature") signature _ none refl
      ∙ gathered-put_only name (str "Signature-Input") input _ refl (
          Unspelled-put name (str "Signature-Agent") agent _ refl
            (Unspelled-drop_stale name headers (λ k h. (not_resign k h).1)))

  pub get-lower_headers-signature_agent :
      get (str "signature-agent") (lower_headers signed_headers []) ≡ some (strip agent)
  unfolding get lower text_eq
  get-lower_headers-signature_agent =
      let name = str "signature-agent" in
      get-lower_headers name signed_headers []
      ∙ gathered-put_other name (str "Signature") signature _ none refl
      ∙ gathered-put_other name (str "Signature-Input") input _ none refl
      ∙ gathered-put_only name (str "Signature-Agent") agent _ refl
          (Unspelled-drop_stale name headers (λ k h. (not_resign k h).2))

  -- A digest is seen as it was, by the signer and by the verifier.
  pub get-lower_headers-digest :
      get (str "content-digest") (lower_headers signed_headers [])
      ≡ get (str "content-digest") (lower_headers headers [])
  unfolding get lower text_eq
  get-lower_headers-digest =
      let name = str "content-digest" in
      get-lower_headers name signed_headers []
      ∙ gathered-put_other name (str "Signature") signature _ none refl
      ∙ gathered-put_other name (str "Signature-Input") input _ none refl
      ∙ gathered-put_other name (str "Signature-Agent") agent _ none refl
      ∙ gathered-drop_stale name headers none resign_not_digest
      ∙ sym (get-lower_headers name headers [])

pub header-agent_headers :
    (agent : Text) (headers : Headers)
    → header (agent_headers agent headers) (str "content-digest")
      ≡ header headers (str "content-digest")
unfolding lower text_eq
header-agent_headers agent headers =
    let name = str "content-digest" in
    header-put_other name (str "Signature-Agent") agent _ refl
    ∙ header-drop_stale name headers resign_not_digest
