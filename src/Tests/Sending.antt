-- ===== src/Tests/Sending.antt =====
-- A redirect from a host that is signed for to one that is not, and back.
use wbauth.Prelude.{◌≡◌, ◌⊎◌, true, false, refl, none, some, [], ◌∷◌}
use wbauth.Text.{Text, str, text_eq, lower, join, decimal}
use wbauth.Urls.{normalize_authority}
use wbauth.StructuredFields.{sf_string, is_key}
use wbauth.Signer.{
  sign_fast, component_values, signature_params, validate_signature_agent_url, expiry_in_range,
  drop_stale, is_resign_header, header,
}
use wbauth.Adapters.{Decider, decide}
use wbauth.Adapters.Sending.{Request, Moment, goes, prepare, apply_user_agent}
use wbauth.Adapters.Sending.Fresh.{IsUnsigned, IsSigned, prepare-Fresh}
use wbauth.Tests.Exchanging.{posted_signed}
use wbauth.Tests.Signing.{split, encode, signer, signed}

abbrev everywhere : Decider
everywhere = record { hosts = none; should_sign = none; allow_insecure = false }

abbrev elsewhere : Decider
elsewhere = record {
  hosts = some (str "b.example" ∷ []);
  should_sign = none;
  allow_insecure = false;
}

abbrev now : Moment
now = record { created = 5000000; nonce = str "n" }

abbrev hop : Request
hop = record {
  method = str "GET";
  url = str "https://a.example/x";
  headers = (str "user-agent", str "python-httpx/0.27") ∷ (str "signature", str "old") ∷ [];
  content = [];
}

abbrev signed_hop : Request
signed_hop = record hop {
  headers =
      (str "user-agent", str "me")
      ∷ (str "signature", signed.signature)
      ∷ (str "signature-input", signed.signature_input)
      ∷ (str "signature-agent", signed.signature_agent)
      ∷ [];
}

hop_is_signed :
    prepare split encode (λ b. b) signer (some (str "me")) everywhere now hop ≡ goes signed_hop
unfolding prepare validate_signature_agent_url expiry_in_range sf_string sign_fast is_key
    component_values normalize_authority drop_stale signature_params join decimal
hop_is_signed = refl

hop_is_stripped :
    prepare split encode (λ b. b) signer (some (str "me")) elsewhere now hop
    ≡ goes (record hop { headers = (str "user-agent", str "python-httpx/0.27") ∷ [] })
unfolding prepare lower text_eq is_resign_header
hop_is_stripped = refl

abbrev post : Request
post = record hop { method = str "POST"; content = str "hi" }

abbrev signed_post : Request
signed_post = record post {
  headers =
      (str "user-agent", str "me")
      ∷ (str "signature", posted_signed.signature)
      ∷ (str "content-digest", str "sha-256=:aGk=:")
      ∷ (str "signature-input", posted_signed.signature_input)
      ∷ (str "signature-agent", posted_signed.signature_agent)
      ∷ [];
}

abbrev hashed : Text → Text
hashed body = str "aGk="

post_is_signed :
    prepare split encode hashed signer (some (str "me")) everywhere now post ≡ goes signed_post
unfolding prepare validate_signature_agent_url expiry_in_range sf_string sign_fast is_key
    component_values normalize_authority drop_stale signature_params join decimal header
post_is_signed = refl

own_agent_stays :
    apply_user_agent ((str "User-agent", str "mine") ∷ []) (some (str "me"))
    ≡ (str "User-agent", str "mine") ∷ []
unfolding apply_user_agent text_eq
own_agent_stays = refl

prepare-Fresh_example :
    ((decide split everywhere post.url ≡ some false) × IsUnsigned post signed_post)
    ⊎ ((decide split everywhere post.url ≡ some true)
        × IsSigned split encode hashed signer (some (str "me")) now post signed_post)
prepare-Fresh_example =
    prepare-Fresh split encode hashed signer (some (str "me")) everywhere now post signed_post
      post_is_signed
