-- ===== src/Signer.antt =====
-- signer.py: `sign` changes the headers of the request and returns the three values, or raises
-- `ValueError`. Times are microseconds. `urlsplit`, base64 and the signing key are parameters.
pub mod Inversion
pub mod Headers
pub mod Covered
pub mod Failure
pub mod Window
use wbauth.Prelude.{
  ℕ, ◌+◌, ◌*◌, ◌/◌, Bool, true, false, not, ◌&&◌, ◌||◌, Option, none, some, List, [], ◌∷◌, ◌++◌,
  ltb, leb, ◌==◌, if◌then◌else◌, is_empty, is_some, filter, all, map,
}
use wbauth.Text.{Text, str, text_eq, starts_with, lower, join, strip, decimal}
use wbauth.Dict.{Dict, text_keys, get, put, remove, keys}
use wbauth.Urls.{UrlSplit, Split, host_name, normalize_authority}
use wbauth.StructuredFields.{sf_string, is_key, quote, backslash}

-- the `ValueError`s, by what they complain of
pub data Error : Type 0 where
  bad_agent_url bad_expiry bad_label bad_authority bad_string no_content_digest : Error

pub data Result (A : Type 0) : Type 0 where
  ok : A → Result A
  err : Error → Result A

infixl 5 ◌>>=◌
abbrev pub ◌>>=◌ : {A B : Type 0} → Result A → (A → Result B) → Result B
ok a >>= f = f a
err e >>= f = err e

-- an optional value whose absence is the error
abbrev pub require : {A : Type 0} → Error → Option A → Result A
require e none = err e
require e (some a) = ok a

abbrev pub Headers : Type 0
Headers = Dict Text Text

pub record NormalizedRequest : Type 0 where
  pub method : Text
  pub url : Text
  pub headers : Headers
  pub body : Option Text

pub record SignatureHeaders : Type 0 where
  pub signature : Text
  pub signature_input : Text
  pub signature_agent : Text

-- What `sign` reads of an identity: its key signs a text.
pub record Signer : Type 0 where
  pub kid : Text
  pub signature_agent_url : Text
  pub sign_raw : Text → Text

abbrev pub web_bot_auth_tag : Text
web_bot_auth_tag = str "web-bot-auth"

abbrev pub max_expires : ℕ
max_expires = 3600 * 1000000

-- The truth of an optional body.
abbrev pub has_body : Option Text → Bool
has_body none = false
has_body (some b) = not (is_empty b)

abbrev pub components_for : Bool → List Text
components_for true = str "@authority" ∷ str "signature-agent" ∷ str "content-digest" ∷ []
components_for false = str "@authority" ∷ str "signature-agent" ∷ []

-- `_header`: the first header of the name, in any case
unfoldable pub header : Headers → Text → Option Text
header [] name = none
header ((k, v) ∷ headers) name = if text_eq (lower k) name then some v else header headers name

-- one of `_RESIGN_HEADERS`, in any case
unfoldable pub is_resign_header : Text → Bool
is_resign_header k =
    let l = lower k in
    text_eq l (str "signature")
    || text_eq l (str "signature-input")
    || text_eq l (str "signature-agent")

-- `del request.headers[k]` for each such key: the keys of a dictionary are distinct
unfoldable pub drop_stale : Headers → Headers
drop_stale headers = filter (λ h. not (is_resign_header h.0)) headers

-- `0x21 <= ord(ch) <= 0x7E` and no quote or backslash
abbrev url_code : ℕ → Bool
url_code c = leb 0x21 c && leb c 0x7e && not (c == quote || c == backslash)

-- `validate_signature_agent_url` of identity.py
unfoldable pub validate_signature_agent_url : UrlSplit → Text → Bool
validate_signature_agent_url urlsplit url =
    starts_with url (str "https://")
    && all url_code url
    && (elim (urlsplit url) [ none ↦ false | some parts ↦ not (is_empty (host_name parts)) ])

-- `not 0 < expires_after_seconds <= MAX_EXPIRES_SECONDS`, negated
unfoldable pub expiry_in_range : ℕ → Bool
expiry_in_range after = ltb 0 after && leb after max_expires

-- `int(t.timestamp())`
abbrev pub whole_seconds : ℕ → ℕ
whole_seconds t = t / 1000000

abbrev pub quoted : Text → Text
quoted t = quote ∷ t ++ quote ∷ []

-- What `_sign_fast` is called with, besides the request and the identity.
pub record Stamp : Type 0 where
  pub created : ℕ
  pub expires : ℕ
  pub nonce : Text
  pub label : Text

-- the signature parameters, as the header and the base show them
unfoldable pub signature_params : (covered : List Text) → (kid : Text) → Stamp → Result Text
signature_params covered kid stamp = do
  kid_string ← require bad_string (sf_string kid)
  nonce_string ← require bad_string (sf_string stamp.nonce)
  tag_string ← require bad_string (sf_string web_bot_auth_tag)
  ok (
      str "("
      ++ join (str " ") (map quoted covered)
      ++ str ")"
      ++ str ";created="
      ++ decimal (whole_seconds stamp.created)
      ++ str ";keyid="
      ++ kid_string
      ++ str ";alg=\"ed25519\""
      ++ str ";expires="
      ++ decimal (whole_seconds stamp.expires)
      ++ str ";nonce="
      ++ nonce_string
      ++ str ";tag="
      ++ tag_string)

abbrev pub with_digest : Bool → Headers → List (Text × Text) → Result (List (Text × Text))
with_digest false headers values = ok values
with_digest true headers values = do
  cd ← require no_content_digest (header headers (str "content-digest"))
  ok (values ++ (str "content-digest", strip cd) ∷ [])

-- the values of the covered components
unfoldable pub component_values :
    UrlSplit → (url : Text) → Headers → (digest : Bool) → Result (List (Text × Text))
component_values urlsplit url headers digest = do
  authority ← require bad_authority (normalize_authority urlsplit url)
  agent ← require bad_string (get (str "Signature-Agent") headers)
  with_digest digest headers ((str "@authority", authority) ∷ (str "signature-agent", agent) ∷ [])

abbrev pub base_line : Text × Text → Text
base_line component = quoted component.0 ++ str ": " ++ component.1

-- the signature base
unfoldable pub signature_base : List (Text × Text) → (params : Text) → Text
signature_base values params =
    join (10 ∷ []) (map base_line values) ++ (10 ∷ []) ++ str "\"@signature-params\": " ++ params

module _ (urlsplit : UrlSplit) (b64 : Text → Text) (identity : Signer) where
  -- the two header values, from the parts
  abbrev pub fast_values : Text → List (Text × Text) → Text → Text × Text
  fast_values label values params =
      let raw = identity.sign_raw (signature_base values params) in
      (label ++ str "=" ++ params, label ++ str "=:" ++ b64 raw ++ str ":")

  -- `_sign_fast`: the values of `Signature-Input` and `Signature`
  unfoldable pub sign_fast : (url : Text) → Headers → (digest : Bool) → Stamp → Result (Text × Text)
  sign_fast url headers digest stamp = if not (is_key stamp.label) then err bad_label else do
    values ← component_values urlsplit url headers digest
    params ← signature_params (components_for digest) identity.kid stamp
    ok (fast_values stamp.label values params)

  -- the end of `sign`
  abbrev pub with_signature :
      (agent : Text) → Headers → Result (Text × Text) → Result SignatureHeaders × Headers
  with_signature agent headers (err e) = (err e, headers)
  with_signature agent headers (ok (input, signature)) = (
    ok (record { signature = signature; signature_input = input; signature_agent = agent }),
    put (str "Signature") signature (put (str "Signature-Input") input headers),
  )

  abbrev pub with_agent :
      NormalizedRequest → Stamp → Option Text → Result SignatureHeaders × Headers
  with_agent request stamp none = (err bad_string, drop_stale request.headers)
  with_agent request stamp (some agent) =
      let headers = put (str "Signature-Agent") agent (drop_stale request.headers) in
      with_signature agent headers (sign_fast request.url headers (has_body request.body) stamp)

  -- `sign`, with `created`, `expires_after_seconds` and `nonce` given
  unfoldable pub sign :
      NormalizedRequest
      → (created after : ℕ) → (nonce label : Text) → Result SignatureHeaders × Headers
  sign request created after nonce label =
      if not (validate_signature_agent_url urlsplit identity.signature_agent_url)
      then (err bad_agent_url, request.headers)
      else if not (expiry_in_range after)
      then (err bad_expiry, request.headers)
      else with_agent request
          (record { created = created; expires = created + after; nonce = nonce; label = label })
          (sf_string identity.signature_agent_url)
