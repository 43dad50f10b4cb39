-- ===== src/Adapters/Sending.antt =====
-- The transports of adapters/httpx_auth.py that sign each request as it is sent, and the user agent
-- of adapters/_utils.py. `httpx.Headers` is a dictionary of lower-case names, which is how it finds
-- and replaces a header; the clock, the nonce and SHA-256 in base64 are parameters.
pub mod Digest
pub mod Fresh
use wbauth.Prelude.{
  ℕ, Bool, true, false, not, ◌||◌, Option, none, some, List, [], ◌∷◌, ◌++◌, if◌then◌else◌, any,
  find, is_empty,
}
use wbauth.Text.{Text, str, text_eq, starts_with, lower}
use wbauth.Dict.{Dict, text_keys, get, put, remove}
use wbauth.Urls.{UrlSplit}
use wbauth.Signer.{
  Headers, NormalizedRequest, SignatureHeaders, Signer, Result, ok, err, Error, sign,
}
use wbauth.Adapters.{
  Decider, decide, strip_signature_headers, content_digest, ensure_content_digest,
}

-- `_LIBRARY_DEFAULT_UA`
abbrev library_names : List Text
library_names = str "python-requests/" ∷ (str "python-httpx/" ∷ (str "python-urllib/" ∷ []))

-- `should_apply_user_agent`
unfoldable pub should_apply_user_agent : Option Text → Bool
unfolding lower starts_with
should_apply_user_agent none = true
should_apply_user_agent (some current) =
    is_empty current || any (λ name. starts_with (lower current) name) library_names

abbrev user_agent_header : Headers → Option (Text × Text)
user_agent_header headers = find (λ h. text_eq (lower h.0) (str "user-agent")) headers

-- `apply_user_agent`
unfoldable pub apply_user_agent : Headers → Option Text → Headers
unfolding should_apply_user_agent put remove
apply_user_agent headers none = headers
apply_user_agent headers (some []) = headers
apply_user_agent headers (some (c ∷ ua)) = elim (user_agent_header headers) [
  | none ↦ put (str "User-Agent") (c ∷ ua) headers
  | some h ↦
      if should_apply_user_agent (some h.1)
      then put (str "User-Agent") (c ∷ ua) (remove h.0 headers)
      else headers
]

-- An `httpx.Request`.
pub record Request : Type 0 where
  pub method : Text
  pub url : Text
  pub headers : Headers
  pub content : Text

-- What `sign` takes when it is called: the time, and a new nonce.
pub record Moment : Type 0 where
  pub created : ℕ
  pub nonce : Text

-- A request that goes out, or the `ValueError` of `sign` or of `urlsplit`.
pub data Prepared : Type 0 where
  goes : Request → Prepared
  fails : Error → Prepared
  bad_url : Prepared

-- `request.read() or None`
abbrev pub body_of : Text → Option Text
body_of [] = none
body_of (c ∷ t) = some (c ∷ t)

-- `DEFAULT_EXPIRES_SECONDS` and `DEFAULT_LABEL` of signer.py
abbrev pub default_expiry : ℕ
default_expiry = 60000000

abbrev pub default_label : Text
default_label = str "sig1"

-- the digest that `ensure_content_digest` left in the copy of the headers
abbrev pub with_digest_of : Headers → Headers → Headers
with_digest_of copy headers = elim (content_digest copy) [
  | none ↦ headers
  | some h ↦ put (str "content-digest") h.1 headers
]

-- the three headers of a signature
unfoldable pub with_signature_headers : SignatureHeaders → Headers → Headers
unfolding put
with_signature_headers sig headers =
    put (str "signature-agent") sig.signature_agent (
      put (str "signature-input") sig.signature_input (put (str "signature") sig.signature headers))

-- the user agent of the identity, at the end of `_sign_request`
unfoldable pub with_user_agent : Option Text → Headers → Headers
unfolding get put should_apply_user_agent
with_user_agent none headers = headers
with_user_agent (some []) headers = headers
with_user_agent (some (c ∷ ua)) headers =
    if should_apply_user_agent (get (str "user-agent") headers)
    then put (str "user-agent") (c ∷ ua) headers
    else headers

module _ (urlsplit : UrlSplit) (b64 sha256_base64 : Text → Text) (identity : Signer)
    (user_agent : Option Text) where
  -- the copy of the headers that is signed
  abbrev pub signed_copy : Request → Headers
  signed_copy request =
      ensure_content_digest sha256_base64 request.headers (body_of request.content)

  abbrev pub normalized : Request → NormalizedRequest
  normalized request = record {
    method = request.method;
    url = request.url;
    headers = signed_copy request;
    body = body_of request.content;
  }

  abbrev pub signed : Request → Result SignatureHeaders × Headers → Prepared
  signed request (err e, headers) = fails e
  signed request (ok sig, headers) = goes (record request {
    headers =
        with_user_agent user_agent
          (with_signature_headers sig (with_digest_of (signed_copy request) request.headers));
  })

  -- `_sign_request`
  unfoldable pub sign_request : Moment → Request → Prepared
  unfolding sign ensure_content_digest with_user_agent with_signature_headers
  sign_request now request = signed request (
      sign urlsplit b64 identity (normalized request) now.created default_expiry now.nonce
        default_label)

  -- `_DecidingTransport._prepare`, in `handle_request` of the signing transports
  unfoldable pub prepare : Decider → Moment → Request → Prepared
  unfolding decide sign_request strip_signature_headers
  prepare decider now request = elim (decide urlsplit decider request.url) [
    | none ↦ bad_url
    | some false ↦ goes (record request { headers = strip_signature_headers request.headers })
    | some true ↦ sign_request now request
  ]
