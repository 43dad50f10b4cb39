-- ===== src/Adapters/Sending/Digest.antt =====
-- Which Content-Digest goes out with a signed request of adapters/httpx_auth.py.
use wbauth.Prelude.{
  Bool, true, false, ◌≡◌, ◌⊎◌, inl, inr, refl, sym, ap, ◌∙◌, Option, none, some, List, [], ◌∷◌,
  Bool-cases, Option-cases, arith,
}
use wbauth.Text.{Text, str, text_eq, lower, strip}
use wbauth.Text.Laws.{text_eq_iff}
use wbauth.Dict.{text_keys, get, put}
use wbauth.Dict.Laws.{get-put, get-put_self}
use wbauth.Signer.{Headers, SignatureHeaders, header, has_body}
use wbauth.Signer.Inversion.{agent_headers}
use wbauth.Signer.Covered.{DigestLine}
use wbauth.Protocol.Lowered.{header-agent_headers}
use wbauth.Adapters.{content_digest, digest_value, ensure_content_digest}
use wbauth.Adapters.Sending.{
  body_of, with_digest_of, with_signature_headers, with_user_agent, should_apply_user_agent,
}

abbrev value_of : Option (Text × Text) → Option Text
value_of none = none
value_of (some h) = some h.1

header-content_digest :
    (headers : Headers) → header headers (str "content-digest") ≡ value_of (content_digest headers)
unfolding header
header-content_digest [] = refl
header-content_digest ((k, v) ∷ headers) =
    elim (Bool-cases (text_eq (lower k) (str "content-digest"))) [
      | inl same ↦ rw same refl
      | inr other ↦ rw other (header-content_digest headers)
    ]

-- A digest that is put into headers without one is the one that is found.
content_digest-put :
    (v : Text) (headers : Headers)
    → content_digest headers ≡ none
    → value_of (content_digest (put (str "Content-Digest") v headers)) ≡ some v
unfolding put lower text_eq
content_digest-put v [] h = refl
content_digest-put v ((k, w) ∷ headers) h =
    elim (Bool-cases (text_eq (lower k) (str "content-digest"))) [
      | inl same ↦ absurd (cc (rw same at h))
      | inr other ↦ elim (Bool-cases (text_eq k (str "Content-Digest"))) [
        | inl exact ↦ absurd (
            cc (
              sym other
              ∙ ap (λ t. text_eq (lower t) (str "content-digest"))
                  ((text_eq_iff k (str "Content-Digest")).0 exact)))
        | inr apart ↦ rw apart (rw other (content_digest-put v headers (rw other at h)))
      ]
    ]

module _ (out : SignatureHeaders) (copy headers : Headers) where
  get-with_digest_of :
      (cd : Text)
      → value_of (content_digest copy) ≡ some cd
      → get (str "content-digest") (with_digest_of copy headers) ≡ some cd
  get-with_digest_of cd h = elim (Option-cases (content_digest copy)) [
    | inl missing ↦ absurd (cc (rw missing at h))
    | inr (p, there) ↦
        rw (with_digest_of, there)
          (get-put_self (str "content-digest") p.1 headers ∙ (rw there at h))
  ]

  get-with_signature_headers :
      (hs : Headers)
      → get (str "content-digest") (with_signature_headers out hs) ≡ get (str "content-digest") hs
  unfolding with_signature_headers text_eq
  get-with_signature_headers hs =
      let one = put (str "signature") out.signature hs in
      let two = put (str "signature-input") out.signature_input one in
      get-put (str "signature-agent") (str "content-digest") out.signature_agent two
      ∙ get-put (str "signature-input") (str "content-digest") out.signature_input one
      ∙ get-put (str "signature") (str "content-digest") out.signature hs

get-with_user_agent :
    (ua : Option Text) (hs : Headers)
    → get (str "content-digest") (with_user_agent ua hs) ≡ get (str "content-digest") hs
unfolding with_user_agent text_eq
get-with_user_agent none hs = refl
get-with_user_agent (some []) hs = refl
get-with_user_agent (some (c ∷ ua)) hs =
    elim (Bool-cases (should_apply_user_agent (get (str "user-agent") hs))) [
      | inl replaced ↦ rw replaced (get-put (str "user-agent") (str "content-digest") (c ∷ ua) hs)
      | inr own ↦ rw own refl
    ]

-- The Content-Digest header that is sent is the one that the signature covers. It is the hash of the
-- body, where the request came without such a header.
abbrev pub IsDigestSent :
    (Text → Text) → Text → (before sent : Headers) → Bool → List (Text × Text) → Type 0
IsDigestSent sha256_base64 content before sent false line = line ≡ []
IsDigestSent sha256_base64 content before sent true line =
    (cd : Text) × (get (str "content-digest") sent ≡ some cd)
    × (line ≡ (str "content-digest", strip cd) ∷ [])
    × (((h : Text × Text) × (content_digest before ≡ some h))
        ⊎ (cd ≡ digest_value sha256_base64 content))

module _ (sha256_base64 : Text → Text) (out : SignatureHeaders) (ua : Option Text)
    (headers : Headers) where
  made_digest :
      (content : Text) (cd : Text)
      → has_body (body_of content) ≡ true
      → content_digest headers ≡ none
      → value_of (content_digest (ensure_content_digest sha256_base64 headers (body_of content)))
        ≡ some cd
      → cd ≡ digest_value sha256_base64 content
  unfolding ensure_content_digest
  made_digest [] cd h missing e = absurd (cc)
  made_digest (b ∷ content) cd h missing e =
      let value = digest_value sha256_base64 (b ∷ content) in
      let made = content_digest-put value headers missing in
      let copy_is : ensure_content_digest sha256_base64 headers (some (b ∷ content))
          ≡ put (str "Content-Digest") value headers =
        rw (ensure_content_digest, missing) refl in
      let same : some value ≡ some cd =
        sym made ∙ ap (λ hs. value_of (content_digest hs)) (sym copy_is) ∙ e in
      ground (arith, same)

  pub signed-IsDigestSent :
      (content : Text) (digest : Bool) (line : List (Text × Text))
      → has_body (body_of content) ≡ digest
      → DigestLine digest
          (agent_headers out.signature_agent
            (ensure_content_digest sha256_base64 headers (body_of content)))
          line
      → IsDigestSent sha256_base64 content headers
          (with_user_agent ua (
            with_signature_headers out (
              with_digest_of
                (ensure_content_digest sha256_base64 headers (body_of content))
                headers)))
          digest
          line
  signed-IsDigestSent content false line h d = d
  signed-IsDigestSent content true line h (cd, found, same) =
      let copy = ensure_content_digest sha256_base64 headers (body_of content) in
      let value : value_of (content_digest copy) ≡ some cd =
        sym (header-content_digest copy)
        ∙ sym (header-agent_headers out.signature_agent copy)
        ∙ found in
      (
        cd,
        get-with_user_agent ua (with_signature_headers out (with_digest_of copy headers))
            ∙ get-with_signature_headers out copy headers (with_digest_of copy headers)
            ∙ get-with_digest_of out copy headers cd value,
        same,
        elim (Option-cases (content_digest headers)) [
          | inr there ↦ inl there
          | inl missing ↦ inr (made_digest content cd h missing value)
        ],
      )
