-- ===== src/Tests/Exchanging.antt =====
-- A request with a body that is signed and then verified.
use wbauth.Prelude.{◌≡◌, refl, ap, Option, none, some, [], ◌∷◌, arith}
use wbauth.Text.{Text, str, text_eq, starts_with, lower, join, decimal, strip}
use wbauth.Dict.{get, put, text_keys}
use wbauth.Urls.{normalize_authority, is_default_port}
use wbauth.StructuredFields.{sf_string, replace, is_key}
use wbauth.Signer.{
  Headers, NormalizedRequest, SignatureHeaders, ok, sign, sign_fast, component_values,
  signature_params, signature_base, validate_signature_agent_url, expiry_in_range, drop_stale,
  is_resign_header, header,
}
use wbauth.Verifier.Nonces.{seen}
use wbauth.Verifier.Checks.{accepted, UrlParts, Services, lower_headers}
use wbauth.Verifier.Verify.{digest_fault, digest_from, verify, unless_seen}
use wbauth.Protocol.Sent.{arriving}
use wbauth.Protocol.RoundTrip.{signed_agent, verify-sign}
use wbauth.Tests.Signing.{split, encode, signer}
use wbauth.Tests.Verifying.{settings, store}

abbrev parts : UrlParts
parts = record {
  scheme = str "https";
  whole = str "https://a.example/x";
  raw_path = str "/x";
  query = [];
}

-- a directory that holds the key, and a digest that is always the same
abbrev services : Services
services = record {
  urlsplit = split;
  http_url = λ u. some parts;
  b64decode = λ s. some s;
  sha256 = λ s. str "aGk=";
  find_key = λ kid agent. accepted kid;
  key_verifies = λ x sig base. text_eq sig (str "c2ln");
}

abbrev posted : NormalizedRequest
posted = record {
  method = str "POST";
  url = str "https://a.example/x";
  headers = (str "Content-Digest", str " sha-256=:aGk=:") ∷ (str "signature-agent", str "old") ∷ [];
  body = some (str "hi");
}

abbrev pub posted_signed : SignatureHeaders
posted_signed = record {
  signature = str "sig1=:c2ln:";
  signature_input =
      str
        "sig1=(\"@authority\" \"signature-agent\" \"content-digest\");created=5;keyid=\"k\";alg=\"ed25519\";expires=65;nonce=\"n\";tag=\"web-bot-auth\"";
  signature_agent = str "\"https://me.example\"";
}

abbrev posted_headers : Headers
posted_headers =
    (str "Content-Digest", str " sha-256=:aGk=:")
    ∷ (str "Signature-Agent", posted_signed.signature_agent)
    ∷ (str "Signature-Input", posted_signed.signature_input)
    ∷ (str "Signature", posted_signed.signature)
    ∷ []

post_is_signed :
    sign split encode signer posted 5000000 60000000 (str "n") (str "sig1")
    ≡ (ok posted_signed, posted_headers)
unfolding sign sign_fast component_values signature_params signature_base
    validate_signature_agent_url expiry_in_range drop_stale is_resign_header header get put text_eq
    lower join decimal sf_string replace is_key normalize_authority is_default_port starts_with
post_is_signed = refl

abbrev stripped : Option Text → Option Text
stripped none = none
stripped (some t) = some (strip t)

one_digest :
    (cd : Text)
    → header posted.headers (str "content-digest") ≡ some cd
    → get (str "content-digest") (lower_headers posted.headers []) ≡ some (strip cd)
unfolding header lower text_eq lower_headers
one_digest cd h = ap stripped h

digest_is_right :
    digest_fault services
      (lower_headers posted.headers [])
      (str "@authority" ∷ str "signature-agent" ∷ str "content-digest" ∷ [])
      posted.body
    ≡ none
unfolding digest_fault lower_headers text_eq digest_from
digest_is_right = refl

verify-sign_example :
    verify services settings 9000000 9000000 (arriving posted posted_headers) store
    ≡ unless_seen
        (signed_agent signer posted 5000000 60000000 (str "n") (str "sig1"))
        (seen 9000000 (str "n") 70000000 store)
unfolding text_eq
verify-sign_example =
    verify-sign services settings encode signer posted parts 9000000 9000000 5000000 60000000
      (str "n") (str "sig1") (str "k") posted_signed posted_headers store post_is_signed refl
      (λ base. refl) (λ base. refl) refl (λ base. refl) refl refl (omega arith) (omega arith)
      (omega arith) one_digest digest_is_right
