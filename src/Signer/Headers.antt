-- ===== src/Signer/Headers.antt =====
-- What `sign` leaves in the headers of the request.
use wbauth.Prelude.{ℕ, ◌≡◌, none, some, [], ◌∷◌, arith, if◌then◌else◌}
use wbauth.Text.{Text, str, text_eq}
use wbauth.Text.Laws.{text_eq_iff}
use wbauth.Dict.{text_keys, get}
use wbauth.Dict.Laws.{get-put}
use wbauth.Urls.{UrlSplit}
use wbauth.Signer.Inversion.{sign-Signed}
use wbauth.Signer.{
  Headers, NormalizedRequest, SignatureHeaders, Signer, ok, is_resign_header, drop_stale, sign,
}

pub get-drop_stale :
    (k : Text) (headers : Headers)
    → get k (drop_stale headers) ≡ (if is_resign_header k then none else get k headers)
unfolding drop_stale get
get-drop_stale k [] = ground arith
get-drop_stale k ((j, v) ∷ headers) = ground (arith, get-drop_stale k headers, text_eq_iff j k)

module _ (urlsplit : UrlSplit) (b64 : Text → Text) (identity : Signer) where
  -- A successful signature leaves the header of every other name as it was. Of the names that spell
  -- a signature header, in any case, only the three that `sign` writes are left, with the values
  -- that it returns, whatever an earlier hop had put there.
  pub get-sign :
      (request : NormalizedRequest) (created after : ℕ) (nonce label : Text)
      (out : SignatureHeaders) (headers : Headers) (k : Text)
      → sign urlsplit b64 identity request created after nonce label ≡ (ok out, headers)
      → get k headers ≡ (
          if text_eq (str "Signature") k
          then some out.signature
          else if text_eq (str "Signature-Input") k
          then some out.signature_input
          else if text_eq (str "Signature-Agent") k
          then some out.signature_agent
          else if is_resign_header k
          then none
          else get k request.headers)
  get-sign request created after nonce label out headers k h =
      let d = sign-Signed urlsplit b64 identity request created after nonce label out headers h in
      rw d.written (simp (get-put, get-drop_stale))
