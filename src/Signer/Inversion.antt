-- ===== src/Signer/Inversion.antt =====
-- What a successful `sign` went through.
use wbauth.Prelude.{ℕ, ◌+◌, true, ◌≡◌, ◌⊎◌, inl, inr, refl, Option, none, some, arith, Bool-cases}
use wbauth.Text.{Text, str}
use wbauth.Dict.{text_keys, put}
use wbauth.Urls.{UrlSplit}
use wbauth.StructuredFields.{sf_string}
use wbauth.Signer.{
  Headers, NormalizedRequest, SignatureHeaders, Signer, Result, ok, err, Error, Stamp, drop_stale,
  has_body, sign, sign_fast, with_agent, validate_signature_agent_url, expiry_in_range,
}

abbrev pub stamp_of : (created after : ℕ) → (nonce label : Text) → Stamp
stamp_of created after nonce label = record {
  created = created;
  expires = created + after;
  nonce = nonce;
  label = label;
}

abbrev pub agent_headers : Text → Headers → Headers
agent_headers agent headers = put (str "Signature-Agent") agent (drop_stale headers)

pub record Signed (urlsplit : UrlSplit) (b64 : Text → Text) (identity : Signer)
    (request : NormalizedRequest) (created after : ℕ) (nonce label : Text) (out : SignatureHeaders)
    (headers : Headers) : Type 0 where
  pub valid : validate_signature_agent_url urlsplit identity.signature_agent_url ≡ true
  pub in_range : expiry_in_range after ≡ true
  pub agent : sf_string identity.signature_agent_url ≡ some out.signature_agent
  pub fast :
      sign_fast urlsplit b64 identity request.url
        (agent_headers out.signature_agent request.headers)
        (has_body request.body)
        (stamp_of created after nonce label)
      ≡ ok (out.signature_input, out.signature)
  pub written :
      headers
      ≡ put (str "Signature") out.signature (
          put
            (str "Signature-Input")
            out.signature_input
            (agent_headers out.signature_agent request.headers))

pub Result-cases :
    {A : Type 0} (r : Result A) → ((e : Error) × (r ≡ err e)) ⊎ ((a : A) × (r ≡ ok a))
Result-cases (err e) = inl (e, refl)
Result-cases (ok a) = inr (a, refl)

module _ (urlsplit : UrlSplit) (b64 : Text → Text) (identity : Signer) (request : NormalizedRequest)
    (created after : ℕ) (nonce label : Text) (out : SignatureHeaders) (headers : Headers) where
  with_agent-Signed :
      (agent : Option Text)
      → validate_signature_agent_url urlsplit identity.signature_agent_url ≡ true
      → expiry_in_range after ≡ true
      → sf_string identity.signature_agent_url ≡ agent
      → with_agent urlsplit b64 identity request (stamp_of created after nonce label) agent
        ≡ (ok out, headers)
      → Signed urlsplit b64 identity request created after nonce label out headers
  with_agent-Signed none v r a h = absurd (cc)
  with_agent-Signed (some agent) v r a h =
      let hs = agent_headers agent request.headers in
      elim (Result-cases (
        sign_fast urlsplit b64 identity request.url hs (has_body request.body)
          (stamp_of created after nonce label))) [
            | inl (e, failed) ↦ absurd (ground (arith, failed))
            | inr ((input, signature), signed) ↦
                let same : out ≡ record {
                  signature = signature;
                  signature_input = input;
                  signature_agent = agent;
                } =
                  ground (arith, signed) in
                let made : headers
                    ≡ put (str "Signature") signature (put (str "Signature-Input") input hs) =
                  ground (arith, signed) in
                rw (same, made)
                  (record { valid = v; in_range = r; agent = a; fast = signed; written = refl })
          ]

  -- A signature that is returned passed each check, and the headers are those of the request with
  -- the three new ones in place of the old.
  pub sign-Signed :
      sign urlsplit b64 identity request created after nonce label ≡ (ok out, headers)
      → Signed urlsplit b64 identity request created after nonce label out headers
  unfolding sign
  sign-Signed h =
      elim (Bool-cases (validate_signature_agent_url urlsplit identity.signature_agent_url)) [
        | inr bad ↦ absurd (ground arith)
        | inl valid ↦ elim (Bool-cases (expiry_in_range after)) [
          | inr bad ↦ absurd (ground arith)
          | inl good ↦
              with_agent-Signed (sf_string identity.signature_agent_url) valid good refl
                (rw (valid, good) at h)
        ]
      ]
