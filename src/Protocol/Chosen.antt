-- ===== src/Protocol/Chosen.antt =====
-- The candidate that `Verifier.verify` of verifier.py chooses in a request that `sign` of signer.py
-- has signed.
use wbauth.Prelude.{ℕ, Bool, true, ◌≡◌, refl, sym, ap, ◌∙◌, some, [], ◌∷◌, ◌++◌, all}
use wbauth.Text.{Text, str, text_eq, strip}
use wbauth.Text.Laws.{text_eq_self}
use wbauth.Dict.{Dict, text_keys, get, put}
use wbauth.StructuredFields.{quote, sf_string, is_key}
use wbauth.StructuredFields.Strings.{escaped}
use wbauth.Signer.{Headers, components_for, web_bot_auth_tag}
use wbauth.Verifier.Parse.{
  Param, pos, text, params_dict, Candidate, base64_code, parse_signature, parse_signature_input,
}
use wbauth.Verifier.Checks.{Services, accepted, ◌>>=◌, chosen, tagged}
use wbauth.Text.Solid.{ends_solid, ends_solid-append, strip_solid}
use wbauth.Protocol.Values.{sf_string-escaped, param_of-decimal, param_of-sf_string}
use wbauth.Protocol.Params.{
  IsKey, key_start, params_text, params_read, params-params_text, ends_solid-params_text,
  alg_written, tag_written,
}
use wbauth.Protocol.Members.{list_text, list_text-append, parse_signature_input-written}
use wbauth.Protocol.Signatures.{signature_text, parse_signature-written}

-- the dictionary of the parameters
abbrev pub read_params : (created expires : ℕ) → (kid nonce : Text) → Dict Text Param
read_params c e kid nonce =
    (str "created", pos c)
    ∷ (str "keyid", text kid)
    ∷ (str "alg", text (str "ed25519"))
    ∷ (str "expires", pos e)
    ∷ (str "nonce", text nonce)
    ∷ (str "tag", text web_bot_auth_tag)
    ∷ []

abbrev pub read_member :
    (label : Text)
    → (digest : Bool) → (ps : Text) → (created expires : ℕ) → (kid nonce : Text) → Candidate
read_member label digest ps c e kid nonce = record {
  label = label;
  raw_params = list_text digest ps;
  covered = components_for digest;
  params_of = read_params c e kid nonce;
}

params_dict-params_read :
    (c e : ℕ) (kid nonce ks ns : Text)
    → sf_string kid ≡ some ks
    → sf_string nonce ≡ some ns
    → params_dict (params_read c e ks ns) [] ≡ read_params c e kid nonce
unfolding put text_eq
params_dict-params_read c e kid nonce ks ns h k =
    rw
      (
        param_of-decimal c,
        param_of-sf_string kid ks h,
        param_of-sf_string (str "ed25519") _ alg_written,
        param_of-decimal e,
        param_of-sf_string nonce ns k,
        param_of-sf_string web_bot_auth_tag _ tag_written,
      )
      refl

chosen_of :
    (S : Services) (h : Headers) (input signature sig : Text) (m : Candidate)
    → get (str "signature-input") h ≡ some input
    → get (str "signature") h ≡ some signature
    → parse_signature S.b64decode signature ≡ some ((m.label, sig) ∷ [])
    → parse_signature_input input ≡ some (m ∷ [])
    → tagged m ≡ true
    → chosen S h ≡ accepted (m, sig)
unfolding chosen ◌>>=◌ get
chosen_of S h input signature sig m a b c d e =
    rw (chosen, a) (rw (b, c, d) (rw (e, text_eq_self m.label) refl))

-- A value that begins with a key and ends with no space is left as it is.
strip-key :
    (label rest : Text)
    → IsKey label
    → ends_solid rest ≡ true
    → strip (label ++ rest) ≡ label ++ rest
strip-key [] rest h k = absurd h
strip-key (a ∷ label) rest (h, i) k =
    strip_solid a (label ++ rest) (key_start a h) (ends_solid-append (a ∷ label) rest k)

ends_solid-list_text :
    (digest : Bool) (c e : ℕ) (ks ns : Text)
    → ends_solid (b'=' ∷ list_text digest (params_text c e ks ns)) ≡ true
ends_solid-list_text digest c e ks ns =
    let ps = params_text c e ks ns in
    ap (λ t. ends_solid (b'=' ∷ t)) (list_text-append digest ps)
    ∙ ends_solid-append (b'=' ∷ list_text digest []) ps (ends_solid-params_text c e ks ns)

pub strip-input :
    (label : Text) (digest : Bool) (c e : ℕ) (ks ns : Text)
    → IsKey label
    → strip (label ++ b'=' ∷ list_text digest (params_text c e ks ns))
      ≡ label ++ b'=' ∷ list_text digest (params_text c e ks ns)
strip-input label digest c e ks ns h = strip-key label _ h (ends_solid-list_text digest c e ks ns)

pub strip-signature_text :
    (label value : Text)
    → IsKey label
    → strip (signature_text label value) ≡ signature_text label value
strip-signature_text label value h =
    strip-key label _ h (ends_solid-append (b'=' ∷ b':' ∷ value) (b':' ∷ []) refl)

pub strip-sf_string : (value wire : Text) → sf_string value ≡ some wire → strip wire ≡ wire
strip-sf_string value wire h =
    let e = sf_string-escaped value wire h in
    ap strip e
    ∙ strip_solid quote (escaped value ++ quote ∷ []) refl
        (ends_solid-append (quote ∷ escaped value) (quote ∷ []) refl)
    ∙ sym e

module _ (S : Services) (h : Headers) (label value sig : Text) (digest : Bool) (c e : ℕ)
    (kid nonce ks ns : Text) where
  -- The only member of the two values is chosen, with all that it says.
  pub chosen-written :
      IsKey label
      → sf_string kid ≡ some ks
      → sf_string nonce ≡ some ns
      → all base64_code value ≡ true
      → S.b64decode value ≡ some sig
      → get (str "signature-input") h
        ≡ some (label ++ b'=' ∷ list_text digest (params_text c e ks ns))
      → get (str "signature") h ≡ some (signature_text label value)
      → chosen S h ≡ accepted (read_member label digest (params_text c e ks ns) c e kid nonce, sig)
  unfolding get text_eq
  chosen-written is_key k n plain decodes input signature =
      let ps = params_text c e ks ns in
      chosen_of S h (label ++ b'=' ∷ list_text digest ps) (signature_text label value) sig
        (read_member label digest ps c e kid nonce) input signature
        (parse_signature-written S.b64decode label value sig is_key plain decodes)
        (parse_signature_input-written label digest ps (params_read c e ks ns) is_key
            (params-params_text nonce ns n c e kid ks k)
          ∙ ap
              (λ d. some (
                record {
                  label = label;
                  raw_params = list_text digest ps;
                  covered = components_for digest;
                  params_of = d;
                }
                ∷ []))
              (params_dict-params_read c e kid nonce ks ns k n))
        refl
