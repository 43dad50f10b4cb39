-- ===== src/Adapters/Sending/Fresh.antt =====
-- No signature of an earlier hop goes out with a request of adapters/httpx_auth.py.
use mathlib.Core.Path.{subst}
use wbauth.Prelude.{
  Bool, true, false, not, ◌≡◌, ◌⊎◌, inl, inr, refl, sym, ap, ◌∙◌, Option, none, some, [], ◌∷◌,
  Bool-cases, Option-cases, arith, all, filter,
}
use wbauth.Text.{Text, str, text_eq}
use wbauth.Dict.{text_keys, get, put}
use wbauth.Dict.Laws.{get-put, get-put_self}
use wbauth.Urls.{UrlSplit}
use wbauth.Signer.{
  Headers, SignatureHeaders, Signer, Result, ok, err, sign, is_resign_header, has_body,
}
use wbauth.Signer.Inversion.{stamp_of, agent_headers}
use wbauth.Signer.Covered.{Covers, sign-Covers}
use wbauth.Adapters.{Decider, decide, strip_signature_headers}
use wbauth.Adapters.Sending.Digest.{IsDigestSent, signed-IsDigestSent}
use wbauth.Adapters.Sending.{
  Request, Moment, Prepared, goes, body_of, default_expiry, default_label, with_digest_of,
  with_signature_headers, with_user_agent, signed_copy, normalized, signed, sign_request, prepare,
  should_apply_user_agent,
}

-- The three headers are those of a signature.
pub record Carries (out : SignatureHeaders) (headers : Headers) : Type 0 where
  pub its_signature : get (str "signature") headers ≡ some out.signature
  pub its_input : get (str "signature-input") headers ≡ some out.signature_input
  pub its_agent : get (str "signature-agent") headers ≡ some out.signature_agent

with_signature_headers-Carries :
    (out : SignatureHeaders) (headers : Headers) → Carries out (with_signature_headers out headers)
unfolding with_signature_headers text_eq
with_signature_headers-Carries out headers =
    let one = put (str "signature") out.signature headers in
    let two = put (str "signature-input") out.signature_input one in
    record {
      its_signature =
          get-put (str "signature-agent") (str "signature") out.signature_agent two
          ∙ get-put (str "signature-input") (str "signature") out.signature_input one
          ∙ get-put_self (str "signature") out.signature headers;
      its_input =
          get-put (str "signature-agent") (str "signature-input") out.signature_agent two
          ∙ get-put_self (str "signature-input") out.signature_input one;
      its_agent = get-put_self (str "signature-agent") out.signature_agent two;
    }

put_user_agent-Carries :
    (out : SignatureHeaders) (headers : Headers) (ua : Text)
    → Carries out headers
    → Carries out (put (str "user-agent") ua headers)
unfolding text_eq
put_user_agent-Carries out headers ua h = record {
  its_signature = get-put (str "user-agent") (str "signature") ua headers ∙ h.its_signature;
  its_input = get-put (str "user-agent") (str "signature-input") ua headers ∙ h.its_input;
  its_agent = get-put (str "user-agent") (str "signature-agent") ua headers ∙ h.its_agent;
}

with_user_agent-Carries :
    (out : SignatureHeaders) (headers : Headers) (ua : Option Text)
    → Carries out headers
    → Carries out (with_user_agent ua headers)
unfolding with_user_agent
with_user_agent-Carries out headers none h = h
with_user_agent-Carries out headers (some []) h = h
with_user_agent-Carries out headers (some (c ∷ ua)) h =
    elim (Bool-cases (should_apply_user_agent (get (str "user-agent") headers))) [
      | inl replaced ↦
          subst (Carries out) (sym (rw (replaced) refl))
            (put_user_agent-Carries out headers (c ∷ ua) h)
      | inr own ↦ subst (Carries out) (sym (rw (own) refl)) h
    ]

all-filter : (p : Text × Text → Bool) (hs : Headers) → all p (filter p hs) ≡ true
all-filter p [] = refl
all-filter p (h ∷ hs) = ground (arith, all-filter p hs)

-- A request that goes out without a signature, and one with its own.
pub record IsUnsigned (request sent : Request) : Type 0 where
  pub no_signature : all (λ h. not (is_resign_header h.0)) sent.headers ≡ true
  pub same_url : sent.url ≡ request.url
  pub same_content : sent.content ≡ request.content

pub record IsSigned (urlsplit : UrlSplit) (b64 sha256_base64 : Text → Text) (identity : Signer)
    (user_agent : Option Text) (now : Moment) (request sent : Request) : Type 0 where
  pub out : SignatureHeaders
  pub carries : Carries out sent.headers
  pub covers :
      Covers urlsplit b64 identity request.url
        (agent_headers out.signature_agent
          (signed_copy urlsplit b64 sha256_base64 identity user_agent request))
        (has_body (body_of request.content))
        (stamp_of now.created default_expiry now.nonce default_label)
        out.signature_input
        out.signature
  pub digest_sent :
      IsDigestSent sha256_base64 sent.content request.headers sent.headers
        (has_body (body_of sent.content))
        covers.line
  pub same_url : sent.url ≡ request.url
  pub same_content : sent.content ≡ request.content

module _ (urlsplit : UrlSplit) (b64 sha256_base64 : Text → Text) (identity : Signer)
    (user_agent : Option Text) where
  request_or : Request → Prepared → Request
  request_or d (goes r) = r
  request_or d _ = d

  signed-IsSigned :
      (now : Moment) (request sent : Request) (result : Result SignatureHeaders × Headers)
      → sign urlsplit b64 identity
          (normalized urlsplit b64 sha256_base64 identity user_agent request)
          now.created
          default_expiry
          now.nonce
          default_label
        ≡ result
      → signed urlsplit b64 sha256_base64 identity user_agent request result ≡ goes sent
      → IsSigned urlsplit b64 sha256_base64 identity user_agent now request sent
  unfolding request_or
  signed-IsSigned now request sent (err e, headers) made e' = absurd (cc)
  signed-IsSigned now request sent (ok out, headers) made e' =
      let same = ap (request_or request) e' in
      let is_covered =
        sign-Covers urlsplit b64 identity
          (normalized urlsplit b64 sha256_base64 identity user_agent request) now.created
          default_expiry now.nonce default_label out headers made in
      subst (IsSigned urlsplit b64 sha256_base64 identity user_agent now request) same (record {
        out = out;
        carries = with_user_agent-Carries out _ user_agent (
            with_signature_headers-Carries out (
              with_digest_of (signed_copy urlsplit b64 sha256_base64 identity user_agent request)
                request.headers));
        covers = is_covered;
        digest_sent =
            signed-IsDigestSent sha256_base64 out user_agent request.headers request.content
              (has_body (body_of request.content)) is_covered.line refl is_covered.digest_line;
        same_url = refl;
        same_content = refl;
      })

  -- A request goes out either to a URL that is not to be signed, and then carries no header with the
  -- name of a signature, whatever an earlier hop left; or to one that is, and then its three headers
  -- are those of a signature over this URL. For a request with a body the signature covers the
  -- Content-Digest header that is sent, which is the hash of this body where the request came
  -- without one.
  pub prepare-Fresh :
      (decider : Decider) (now : Moment) (request sent : Request)
      → prepare urlsplit b64 sha256_base64 identity user_agent decider now request ≡ goes sent
      → ((decide urlsplit decider request.url ≡ some false) × IsUnsigned request sent)
        ⊎ ((decide urlsplit decider request.url ≡ some true)
            × IsSigned urlsplit b64 sha256_base64 identity user_agent now request sent)
  unfolding prepare sign_request strip_signature_headers request_or
  prepare-Fresh decider now request sent e =
      elim (Option-cases (decide urlsplit decider request.url)) [
        | inl raised ↦ absurd (cc (rw (raised, prepare) at e))
        | inr (true, listed) ↦
            inr (listed, signed-IsSigned now request sent _ refl (rw (listed, prepare) at e))
        | inr (false, unlisted) ↦
            let same = ap (request_or request) (rw (unlisted, prepare) at e) in
            inl (
              unlisted,
              subst (IsUnsigned request) same (record {
                no_signature = all-filter (λ h. not (is_resign_header h.0)) request.headers;
                same_url = refl;
                same_content = refl;
              }),
            )
      ]
