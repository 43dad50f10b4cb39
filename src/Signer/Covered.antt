-- ===== src/Signer/Covered.antt =====
-- What the signature that `sign` returns is over.
use wbauth.Prelude.{
  ℕ, Bool, true, false, ◌≡◌, inl, inr, refl, sym, ap, ◌∙◌, Option, none, some, List, [], ◌∷◌, ◌++◌,
  arith, Bool-cases, append-nil,
}
use wbauth.Text.{Text, str, strip}
use wbauth.Dict.{text_keys, get}
use wbauth.Urls.{UrlSplit, normalize_authority}
use wbauth.StructuredFields.{is_key}
use wbauth.Signer.{
  Headers, NormalizedRequest, SignatureHeaders, Signer, Result, ok, err, Error, Stamp, ◌>>=◌,
  require, header, has_body, sign, sign_fast, component_values, signature_params, signature_base,
  components_for, with_digest, fast_values, bad_authority, bad_string, no_content_digest,
}
use wbauth.Signer.Inversion.{stamp_of, agent_headers, sign-Signed}

-- the digest line is there exactly for a request with a body
abbrev pub DigestLine : Bool → Headers → List (Text × Text) → Type 0
DigestLine false headers line = line ≡ []
DigestLine true headers line =
    (cd : Text) × (header headers (str "content-digest") ≡ some cd)
    × (line ≡ (str "content-digest", strip cd) ∷ [])

-- The components and parameters of a signature, and the two header values over them.
pub record Covers (urlsplit : UrlSplit) (b64 : Text → Text) (identity : Signer) (url : Text)
    (headers : Headers) (digest : Bool) (stamp : Stamp) (input signature : Text) : Type 0 where
  pub authority : Text
  pub agent : Text
  pub line : List (Text × Text)
  pub params : Text
  pub label_ok : is_key stamp.label ≡ true
  pub authority_of_url : normalize_authority urlsplit url ≡ some authority
  pub agent_header : get (str "Signature-Agent") headers ≡ some agent
  pub digest_line : DigestLine digest headers line
  pub params_of : signature_params (components_for digest) identity.kid stamp ≡ ok params
  pub input_of : input ≡ stamp.label ++ str "=" ++ params
  pub signature_of :
      signature
      ≡ stamp.label
        ++ str "=:"
        ++ b64 (
            identity.sign_raw (
              signature_base
                ((str "@authority", authority) ∷ (str "signature-agent", agent) ∷ line)
                params))
        ++ str ":"

pub require-some : {A : Type 0} (e : Error) (o : Option A) (a : A) → require e o ≡ ok a → o ≡ some a
require-some e none a h = cc
require-some e (some b) a h = ground arith

pub bind-ok :
    {A B : Type 0} (m : Result A) (f : A → Result B) (b : B)
    → (m >>= f) ≡ ok b
    → (a : A) × (m ≡ ok a) × (f a ≡ ok b)
bind-ok (ok a) f b h = (a, refl, h)
bind-ok (err e) f b h = cc

with_digest-DigestLine :
    (digest : Bool) (headers : Headers) (start values : List (Text × Text))
    → with_digest digest headers start ≡ ok values
    → (line : List (Text × Text)) × DigestLine digest headers line × (values ≡ start ++ line)
with_digest-DigestLine false headers start values h =
    let same : values ≡ start = ground arith in ([], refl, same ∙ sym (append-nil start))
with_digest-DigestLine true headers start values h =
    let (cd, found, made) =
      bind-ok (require no_content_digest (header headers (str "content-digest"))) _ values h in
    let line = (str "content-digest", strip cd) ∷ [] in
    let same : values ≡ start ++ line = ground arith in
    (line, (cd, require-some _ _ _ found, refl), same)

module _ (urlsplit : UrlSplit) (b64 : Text → Text) (identity : Signer) (url : Text)
    (headers : Headers) (stamp : Stamp) (input signature : Text) where
  sign_fast-Covers :
      (digest : Bool)
      → sign_fast urlsplit b64 identity url headers digest stamp ≡ ok (input, signature)
      → Covers urlsplit b64 identity url headers digest stamp input signature
  unfolding sign_fast component_values
  sign_fast-Covers digest h = elim (Bool-cases (is_key stamp.label)) [
    | inr bad ↦ absurd (cc (rw bad at h))
    | inl good ↦
        let (values, ev, h₁) =
          bind-ok (component_values urlsplit url headers digest) _ (input, signature)
            (rw good at h) in
        let (params, ep, h₂) =
          bind-ok (signature_params (components_for digest) identity.kid stamp) _ (input, signature)
            h₁ in
        let (authority, ea, h₃) =
          bind-ok (require bad_authority (normalize_authority urlsplit url)) _ values ev in
        let (agent, eg, h₄) =
          bind-ok (require bad_string (get (str "Signature-Agent") headers)) _ values h₃ in
        let (line, dl, el) = with_digest-DigestLine digest headers _ values h₄ in
        let pair : ◌≡◌ {A = Text × Text}
            (fast_values urlsplit b64 identity stamp.label values params) (input, signature) =
          ground arith in
        record {
          authority = authority;
          agent = agent;
          line = line;
          params = params;
          label_ok = good;
          authority_of_url = require-some _ _ _ ea;
          agent_header = require-some _ _ _ eg;
          digest_line = dl;
          params_of = ep;
          input_of = ap (λ (p : Text × Text). p.0) (sym pair);
          signature_of =
              ap (λ (p : Text × Text). p.1) (sym pair)
              ∙ ap
                  (λ (vs : List (Text × Text)).
                    (fast_values urlsplit b64 identity stamp.label vs params).1)
                  el;
        }
  ]

-- The signature that `sign` returns is made over the authority of the request's URL, the
-- `Signature-Agent` header, for a request with a body its Content-Digest header, and the very
-- parameters that `Signature-Input` shows.
pub sign-Covers :
    (urlsplit : UrlSplit) (b64 : Text → Text) (identity : Signer) (request : NormalizedRequest)
    (created after : ℕ) (nonce label : Text) (out : SignatureHeaders) (headers : Headers)
    → sign urlsplit b64 identity request created after nonce label ≡ (ok out, headers)
    → Covers urlsplit b64 identity request.url
        (agent_headers out.signature_agent request.headers)
        (has_body request.body)
        (stamp_of created after nonce label)
        out.signature_input
        out.signature
sign-Covers urlsplit b64 identity request created after nonce label out headers h =
    let d = sign-Signed urlsplit b64 identity request created after nonce label out headers h in
    sign_fast-Covers urlsplit b64 identity request.url
      (agent_headers out.signature_agent request.headers) (stamp_of created after nonce label)
      out.signature_input out.signature (has_body request.body) d.fast
