-- ===== src/Tests/Signing.antt =====
-- A request that still carries an earlier signature is signed again.
use wbauth.Prelude.{false, ◌≡◌, refl, none, some, [], ◌∷◌, if◌then◌else◌}
use wbauth.Text.{Text, str, text_eq, starts_with, lower, join, decimal}
use wbauth.Dict.{get, put, text_keys}
use wbauth.Urls.{UrlSplit, no_port, normalize_authority, is_default_port}
use wbauth.StructuredFields.{sf_string, replace, is_key}
use wbauth.Signer.{
  Headers, NormalizedRequest, SignatureHeaders, Signer, ok, sign, sign_fast, component_values,
  signature_params, signature_base, validate_signature_agent_url, expiry_in_range, drop_stale,
  is_resign_header, header,
}
use wbauth.Signer.Inversion.{stamp_of, agent_headers}
use wbauth.Signer.Covered.{Covers, sign-Covers}
use wbauth.Signer.Headers.{get-sign}

abbrev pub split : UrlSplit
split url = some (record {
  scheme = str "https";
  hostname = some (str "a.example");
  port_of = no_port;
  path = str "/";
})

abbrev pub encode : Text → Text
encode raw = raw

abbrev pub signer : Signer
signer = record {
  kid = str "k";
  signature_agent_url = str "https://me.example";
  sign_raw = λ t. str "c2ln";
}

abbrev request : NormalizedRequest
request = record {
  method = str "GET";
  url = str "https://a.example/x";
  headers = (str "accept", str "*/*") ∷ (str "SIGNATURE", str "old") ∷ [];
  body = none;
}

abbrev pub signed : SignatureHeaders
signed = record {
  signature = str "sig1=:c2ln:";
  signature_input =
      str
        "sig1=(\"@authority\" \"signature-agent\");created=5;keyid=\"k\";alg=\"ed25519\";expires=65;nonce=\"n\";tag=\"web-bot-auth\"";
  signature_agent = str "\"https://me.example\"";
}

abbrev signed_headers : Headers
signed_headers =
    (str "accept", str "*/*")
    ∷ (str "Signature-Agent", signed.signature_agent)
    ∷ (str "Signature-Input", signed.signature_input)
    ∷ (str "Signature", signed.signature)
    ∷ []

request_is_signed :
    sign split encode signer request 5000000 60000000 (str "n") (str "sig1")
    ≡ (ok signed, signed_headers)
unfolding sign sign_fast component_values signature_params signature_base
    validate_signature_agent_url expiry_in_range drop_stale is_resign_header header get put text_eq
    lower join decimal sf_string replace is_key normalize_authority is_default_port starts_with
request_is_signed = refl

sign-Covers_example :
    Covers split encode signer request.url
      (agent_headers signed.signature_agent request.headers)
      false
      (stamp_of 5000000 60000000 (str "n") (str "sig1"))
      signed.signature_input
      signed.signature
sign-Covers_example =
    sign-Covers split encode signer request 5000000 60000000 (str "n") (str "sig1") signed
      signed_headers request_is_signed

get-sign_example : get (str "SIGNATURE") signed_headers ≡ (
    if text_eq (str "Signature") (str "SIGNATURE")
    then some signed.signature
    else if text_eq (str "Signature-Input") (str "SIGNATURE")
    then some signed.signature_input
    else if text_eq (str "Signature-Agent") (str "SIGNATURE")
    then some signed.signature_agent
    else if is_resign_header (str "SIGNATURE")
    then none
    else get (str "SIGNATURE") request.headers)
get-sign_example =
    get-sign split encode signer request 5000000 60000000 (str "n") (str "sig1") signed
      signed_headers (str "SIGNATURE") request_is_signed

odd_string : sf_string (str "a\"b\\") ≡ some (str "\"a\\\"b\\\\\"")
unfolding sf_string replace
odd_string = refl
