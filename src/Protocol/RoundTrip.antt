-- ===== src/Protocol/RoundTrip.antt =====
-- `Verifier.verify` of verifier.py on a request that `sign` of signer.py has signed.
use wbauth.Prelude.{
  ℕ, ◌+◌, ◌*◌, ◌≤◌, true, false, ◌≡◌, refl, ap, ◌∙◌, none, some, [], ◌∷◌, arith, all, is_empty,
}
use wbauth.Text.{Text, str, strip}
use wbauth.Dict.{text_keys, get}
use wbauth.StructuredFields.{is_key, key_code}
use wbauth.Signer.{
  signature_base, Headers, NormalizedRequest, SignatureHeaders, Signer, ok, header, has_body, sign,
  components_for, whole_seconds, expiry_in_range,
}
use wbauth.Signer.Inversion.{stamp_of, sign-Signed}
use wbauth.Signer.Covered.{sign-Covers}
use wbauth.Verifier.Nonces.{NonceStore, seen}
use wbauth.Verifier.Parse.{base64_code, Candidate}
use wbauth.Verifier.Checks.{
  accepted, UrlParts, Services, Settings, lower_headers, window_fault, micro, chosen, ◌>>=◌,
}
use wbauth.Verifier.Verify.{
  VerifiedAgent, digest_fault, verify, unless_seen, use_nonce, check_candidate,
}
use wbauth.Protocol.Params.{IsKey, params_text}
use wbauth.Protocol.Members.{list_text}
use wbauth.Protocol.Lowered.{signed_headers}
use wbauth.Protocol.Written.{signature_params-written}
use wbauth.Protocol.Chosen.{chosen-written}
use wbauth.Protocol.Accepted.{check_candidate-written}
use wbauth.Protocol.Sent.{
  arriving, lines, lower_signed, raw, get-lower_signed-signature, get-lower_signed-input,
  agent_of-lower_signed, component_lines-lower_signed, digest_fault-lower_signed,
  key_verifies-lines,
}

-- a label that `sign` accepts and that ends in no newline is a key
is_key-IsKey : (label : Text) → is_key label ≡ true → all key_code label ≡ true → IsKey label
unfolding is_key
is_key-IsKey [] h k = absurd (cc)
is_key-IsKey (a ∷ s) h k = (ground arith, ground arith)

timely :
    (t skew created after : ℕ)
    → micro ≤ after
    → expiry_in_range after ≡ true
    → created ≤ t + skew
    → t ≤ whole_seconds (created + after) * micro + skew
    → window_fault t skew (whole_seconds created, 0) (whole_seconds (created + after), 0) ≡ none
unfolding window_fault expiry_in_range
timely t skew created after h k i j = ground arith

-- the agent that the signature names
abbrev pub signed_agent :
    Signer → NormalizedRequest → (created after : ℕ) → (nonce label : Text) → VerifiedAgent
signed_agent identity request created after nonce label = record {
  kid = identity.kid;
  signature_agent_url = some identity.signature_agent_url;
  label = label;
  created = (whole_seconds created, 0);
  expires = (whole_seconds (created + after), 0);
  nonce = some nonce;
  covered = components_for (has_body request.body);
}

module _ (S : Services) (settings : Settings) (b64 : Text → Text) (identity : Signer)
    (request : NormalizedRequest) where
  verify_of :
      (t clock : ℕ) (headers : Headers) (c : Candidate) (sig : Text) (agent : VerifiedAgent)
      (store : NonceStore)
      → chosen S (lower_headers headers []) ≡ accepted (c, sig)
      → check_candidate S settings t (arriving request headers) (lower_headers headers []) c sig
        ≡ accepted agent
      → verify S settings t clock (arriving request headers) store
        ≡ use_nonce settings clock agent agent.nonce store
  unfolding verify ◌>>=◌
  verify_of t clock headers c sig agent store h k = rw (h) (rw k refl)

  module _ (parts : UrlParts) (t clock : ℕ) (created after : ℕ) (nonce label x : Text)
      (out : SignatureHeaders) (headers : Headers) where
    -- A request that `sign` has signed is accepted by `verify`, unless the store has seen its nonce:
    -- the verified agent is the identity that signed, with the label, the nonce, the window in whole
    -- seconds and the components of the signature. This is so where the key that is found for the
    -- identity verifies its signatures, base64 decodes what it encodes of them, in its alphabet, the label
    -- ends in no newline, the nonce is not empty, the window lasts a second or more and the
    -- verifier's time falls in it with the skew, and, for a request with a body, the verifier sees
    -- the Content-Digest header that the signer covers and the body passes the test on it.
    pub verify-sign :
        (store : NonceStore)
        → sign S.urlsplit b64 identity request created after nonce label ≡ (ok out, headers)
        → S.http_url request.url ≡ some parts
        → ((base : Text)
            → S.b64decode (b64 (identity.sign_raw base)) ≡ some (identity.sign_raw base))
        → ((base : Text) → all base64_code (b64 (identity.sign_raw base)) ≡ true)
        → S.find_key identity.kid (some identity.signature_agent_url) ≡ accepted x
        → ((base : Text) → S.key_verifies x (identity.sign_raw base) base ≡ true)
        → all key_code label ≡ true
        → is_empty nonce ≡ false
        → micro ≤ after
        → created ≤ t + settings.skew
        → t ≤ whole_seconds (created + after) * micro + settings.skew
        → ((cd : Text)
            → header request.headers (str "content-digest") ≡ some cd
            → get (str "content-digest") (lower_headers request.headers []) ≡ some (strip cd))
        → digest_fault S
            (lower_headers request.headers [])
            (components_for (has_body request.body))
            request.body
          ≡ none
        → verify S settings t clock (arriving request headers) store
          ≡ unless_seen
              (signed_agent identity request created after nonce label)
              (seen clock nonce (whole_seconds (created + after) * micro + settings.skew) store)
    unfolding verify
    verify-sign store h parts_of decodes plain key signs good some_nonce second early late single
          intact =
        let d =
          sign-Signed S.urlsplit b64 identity request created after nonce label out headers h in
        let v =
          sign-Covers S.urlsplit b64 identity request created after nonce label out headers h in
        let digest = has_body request.body in
        let c = whole_seconds created in
        let e = whole_seconds (created + after) in
        let (ks, ns, ek, en, ep) =
          signature_params-written digest identity.kid (stamp_of created after nonce label) v.params
            v.params_of in
        let ps = params_text c e ks ns in
        let is_key = is_key-IsKey label v.label_ok good in
        let sent =
          signed_headers request.headers out.signature_agent out.signature_input out.signature in
        let signature = raw S b64 identity request created after nonce label out v in
        let base =
          signature_base (lines S b64 identity request created after nonce label out v) v.params in
        let picked =
          chosen-written S (lower_signed S b64 identity request created after nonce label out v)
            label (b64 signature) signature digest c e identity.kid nonce ks ns is_key ek en
            (plain base) (decodes base)
            (get-lower_signed-input S b64 identity request created after nonce label out v ks ns
              is_key ep)
            (get-lower_signed-signature S b64 identity request created after nonce label out v
              is_key) in
        let checked =
          check_candidate-written S settings t (arriving request sent) (lower_headers sent [])
            digest label ps identity.kid nonce identity.signature_agent_url x signature c e _
            some_nonce (timely t settings.skew created after second d.in_range early late)
            (agent_of-lower_signed S b64 identity request created after nonce label out v d.agent)
            (digest_fault-lower_signed S b64 identity request created after nonce label out v
              ∙ intact)
            (component_lines-lower_signed S b64 identity request created after nonce label out v
              d.agent parts parts_of single)
            key
            (key_verifies-lines S b64 identity request created after nonce label out v x
              (list_text digest ps) ep signs) in
        ap (λ hs. verify S settings t clock (arriving request hs) store) d.written
        ∙ verify_of t clock sent _ signature _ store picked checked
        ∙ ap
            (λ n.
              unless_seen (signed_agent identity request created after nonce label)
                (seen clock nonce n store))
            (omega arith)
