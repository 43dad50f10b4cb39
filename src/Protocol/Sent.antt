-- ===== src/Protocol/Sent.antt =====
-- The headers of a request that `sign` of signer.py has signed, as verifier.py sees them.
use wbauth.Prelude.{
  ℕ, ◌+◌, Bool, true, false, ◌≡◌, refl, sym, ap, ◌∙◌, none, some, List, [], ◌∷◌, ◌++◌, append_assoc,
}
use wbauth.Text.{Text, str, strip}
use wbauth.Dict.{text_keys, get}
use wbauth.Dict.Laws.{get-put_self}
use wbauth.StructuredFields.{sf_string, is_key, unquote}
use wbauth.StructuredFields.Strings.{unquote-sf_string}
use wbauth.Signer.{
  Headers, NormalizedRequest, SignatureHeaders, Signer, header, has_body, components_for,
  whole_seconds, signature_base, drop_stale,
}
use wbauth.Signer.Inversion.{stamp_of, agent_headers}
use wbauth.Signer.Covered.{DigestLine, Covers}
use wbauth.Verifier.Checks.{accepted, Incoming, UrlParts, Services, lower_headers, agent_of}
use wbauth.Verifier.Verify.{digest_fault, verified_base, component_lines}
use wbauth.Protocol.Params.{IsKey, params_text}
use wbauth.Protocol.Members.{list_text}
use wbauth.Protocol.Signatures.{signature_text}
use wbauth.Protocol.Lowered.{
  get-lower_headers-signature, get-lower_headers-signature_input, get-lower_headers-signature_agent,
  get-lower_headers-digest, header-agent_headers, signed_headers,
}
use wbauth.Protocol.Written.{some_injective}
use wbauth.Protocol.Chosen.{strip-input, strip-signature_text, strip-sf_string}
use wbauth.Protocol.Base.{verified_base-eq-signature_base}
use wbauth.Protocol.Accepted.{
  DigestRead, component_lines-components_for, agent_of-components_for, digest_fault_of_get,
}

-- the request as it arrives
abbrev pub arriving : NormalizedRequest → Headers → Incoming
arriving request headers = record {
  method = request.method;
  url = request.url;
  headers = headers;
  body = request.body;
  authority = none;
}

module _ (S : Services) (b64 : Text → Text) (identity : Signer) (request : NormalizedRequest) where
  DigestRead-DigestLine :
      (digest : Bool) (agent input signature : Text) (line : List (Text × Text))
      → ((cd : Text)
          → header request.headers (str "content-digest") ≡ some cd
          → get (str "content-digest") (lower_headers request.headers []) ≡ some (strip cd))
      → DigestLine digest (agent_headers agent request.headers) line
      → DigestRead digest
          (lower_headers (signed_headers request.headers agent input signature) [])
          line
  DigestRead-DigestLine false agent input signature line single d = d
  DigestRead-DigestLine true agent input signature line single (cd, found, same) = (
    strip cd,
    get-lower_headers-digest request.headers agent input signature
        ∙ single cd (sym (header-agent_headers agent request.headers) ∙ found),
    same,
  )

  module _ (created after : ℕ) (nonce label : Text) (out : SignatureHeaders)
      (v : Covers S.urlsplit b64 identity request.url
        (agent_headers out.signature_agent request.headers)
        (has_body request.body)
        (stamp_of created after nonce label)
        out.signature_input
        out.signature) where
    abbrev pub lower_signed : Headers
    lower_signed =
        lower_headers
          (signed_headers request.headers out.signature_agent out.signature_input out.signature) []

    abbrev pub lines : List (Text × Text)
    lines = (str "@authority", v.authority) ∷ (str "signature-agent", out.signature_agent) ∷ v.line

    abbrev pub raw : Text
    raw = identity.sign_raw (signature_base lines v.params)

    lines_are_covered :
        (str "@authority", v.authority) ∷ (str "signature-agent", v.agent) ∷ v.line ≡ lines
    lines_are_covered =
        ap (λ a. (str "@authority", v.authority) ∷ (str "signature-agent", a) ∷ v.line)
          (some_injective v.agent out.signature_agent (
            sym v.agent_header
            ∙ get-put_self (str "Signature-Agent") out.signature_agent
                (drop_stale request.headers)))

    signature_text_of : out.signature ≡ signature_text label (b64 raw)
    signature_text_of =
        v.signature_of
        ∙ ap
            (λ ls.
              label ++ str "=:" ++ b64 (identity.sign_raw (signature_base ls v.params)) ++ str ":")
            lines_are_covered
        ∙ append_assoc (label ++ str "=:") (b64 raw) (str ":")
        ∙ append_assoc label (str "=:") (b64 raw ++ str ":")

    pub get-lower_signed-signature :
        IsKey label → get (str "signature") lower_signed ≡ some (signature_text label (b64 raw))
    get-lower_signed-signature is_key =
        get-lower_headers-signature request.headers out.signature_agent out.signature_input
          out.signature
        ∙ ap (λ t. some (strip t)) signature_text_of
        ∙ ap some (strip-signature_text label (b64 raw) is_key)

    pub get-lower_signed-input :
        (ks ns : Text)
        → IsKey label
        → v.params
          ≡ list_text
              (has_body request.body)
              (params_text (whole_seconds created) (whole_seconds (created + after)) ks ns)
        → get (str "signature-input") lower_signed
          ≡ some (
              label
              ++ b'='
                ∷ list_text
                    (has_body request.body)
                    (params_text (whole_seconds created) (whole_seconds (created + after)) ks ns))
    get-lower_signed-input ks ns is_key e =
        let digest = has_body request.body in
        let c = whole_seconds created in
        let l = whole_seconds (created + after) in
        get-lower_headers-signature_input request.headers out.signature_agent out.signature_input
          out.signature
        ∙ ap (λ t. some (strip t))
            (v.input_of ∙ ap (λ p. label ++ str "=" ++ p) e ∙ append_assoc label (str "=") _)
        ∙ ap some (strip-input label digest c l ks ns is_key)

    -- What `verify` looks at of the agent, the lines, the body and the base.
    module _ (url_written : sf_string identity.signature_agent_url ≡ some out.signature_agent) where
      get-lower_signed-agent : get (str "signature-agent") lower_signed ≡ some out.signature_agent
      get-lower_signed-agent =
          get-lower_headers-signature_agent request.headers out.signature_agent out.signature_input
            out.signature
          ∙ ap some (strip-sf_string identity.signature_agent_url out.signature_agent url_written)

      pub agent_of-lower_signed :
          agent_of lower_signed (components_for (has_body request.body))
          ≡ accepted (some identity.signature_agent_url)
      agent_of-lower_signed =
          let url = identity.signature_agent_url in
          let wire = out.signature_agent in
          agent_of-components_for lower_signed (has_body request.body) wire get-lower_signed-agent
          ∙ ap (λ w. accepted (some (unquote w))) (strip-sf_string url wire url_written)
          ∙ ap (λ u. accepted (some u)) (unquote-sf_string url wire url_written)

      pub component_lines-lower_signed :
          (parts : UrlParts)
          → S.http_url request.url ≡ some parts
          → ((cd : Text)
              → header request.headers (str "content-digest") ≡ some cd
              → get (str "content-digest") (lower_headers request.headers []) ≡ some (strip cd))
          → component_lines S
              (arriving request (
                signed_headers request.headers out.signature_agent out.signature_input
                  out.signature))
              lower_signed
              (components_for (has_body request.body))
            ≡ accepted lines
      component_lines-lower_signed parts parts_of single =
          component_lines-components_for S _ lower_signed parts parts_of refl v.authority
            out.signature_agent v.authority_of_url get-lower_signed-agent (has_body request.body)
            v.line
            (DigestRead-DigestLine (has_body request.body) out.signature_agent out.signature_input
              out.signature v.line single v.digest_line)

    pub digest_fault-lower_signed :
        digest_fault S lower_signed (components_for (has_body request.body)) request.body
        ≡ digest_fault S
            (lower_headers request.headers [])
            (components_for (has_body request.body))
            request.body
    digest_fault-lower_signed =
        digest_fault_of_get S lower_signed (lower_headers request.headers [])
          (components_for (has_body request.body)) request.body
          (get-lower_headers-digest request.headers out.signature_agent out.signature_input
            out.signature)

    pub key_verifies-lines :
        (x params : Text)
        → v.params ≡ params
        → ((base : Text) → S.key_verifies x (identity.sign_raw base) base ≡ true)
        → S.key_verifies x raw (verified_base lines params) ≡ true
    key_verifies-lines x params e signs =
        ap (S.key_verifies x raw)
          (verified_base-eq-signature_base _ _ params ∙ ap (signature_base lines) (sym e))
        ∙ signs (signature_base lines v.params)
