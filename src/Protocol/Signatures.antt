-- ===== src/Protocol/Signatures.antt =====
-- The value of `Signature` that signer.py writes, as `_SIG_RE` of verifier.py reads it.
use wbauth.Prelude.{
  ℕ, zero, ◌-◌, true, ◌≡◌, refl, ap, ◌∙◌, Option, some, [], ◌∷◌, ◌++◌, arith, all, drop_while,
  take_while, length,
}
use wbauth.Text.{Text}
use wbauth.Dict.{text_keys, put}
use wbauth.Matching.{spaces?}
use wbauth.Verifier.Parse.{
  consumed, key_end, base64_code, signature_member, signature_members, parse_signature,
}
use wbauth.Protocol.Pieces.{consumed-append, drop_while-append, take_while-append}
use wbauth.Protocol.Params.{IsKey, key_end-append, spaces?-key}

signature_member_parts :
    (s value left : Text)
    → key_end (spaces? s) ≡ some (b'=' ∷ b':' ∷ value)
    → drop_while base64_code value ≡ b':' ∷ left
    → signature_member s
      ≡ some ((consumed (spaces? s) (b'=' ∷ b':' ∷ value), take_while base64_code value), left)
unfolding signature_member
signature_member_parts s value left h k = rw (signature_member, h) (rw k refl)

signature_members_skip : (s : Text) → signature_members (length s) s ≡ []
unfolding signature_members
signature_members_skip [] = refl
signature_members_skip (a ∷ s) = signature_members_skip s

signature_members_of_last :
    (a : ℕ) (s : Text) (m : Text × Text)
    → signature_member (a ∷ s) ≡ some (m, [])
    → signature_members zero (a ∷ s) ≡ m ∷ []
unfolding signature_members
signature_members_of_last a s m h =
    let z : length s - 0 ≡ length s = omega arith in
    rw (signature_members, h) (rw (z, signature_members_skip s) refl)

abbrev pub signature_text : (label value : Text) → Text
signature_text label value = label ++ b'=' ∷ b':' ∷ (value ++ b':' ∷ [])

signature_member-written :
    (label value : Text)
    → IsKey label
    → all base64_code value ≡ true
    → signature_member (signature_text label value) ≡ some ((label, value), [])
signature_member-written label value h k =
    let behind = b'=' ∷ b':' ∷ (value ++ b':' ∷ []) in
    let start : spaces? (label ++ behind) ≡ label ++ behind = spaces?-key label behind h in
    signature_member_parts (label ++ behind) (value ++ b':' ∷ []) []
      (ap key_end start ∙ key_end-append label b'=' (b':' ∷ (value ++ b':' ∷ [])) h refl)
      (drop_while-append base64_code value b':' [] k refl)
    ∙ ap (λ l. some ((l, take_while base64_code (value ++ b':' ∷ [])), []))
        (ap (λ t. consumed t behind) start ∙ consumed-append label behind)
    ∙ ap (λ v. some ((label, v), [])) (take_while-append base64_code value b':' [] k refl)

-- The value of `Signature` that is written is read whole, where the base64 text decodes.
pub parse_signature-written :
    (b64decode : Text → Option Text) (label value raw : Text)
    → IsKey label
    → all base64_code value ≡ true
    → b64decode value ≡ some raw
    → parse_signature b64decode (signature_text label value) ≡ some ((label, raw) ∷ [])
unfolding parse_signature put
parse_signature-written b64decode [] value raw h k e = absurd h
parse_signature-written b64decode (a ∷ label) value raw h k e =
    rw
      (
        parse_signature,
        signature_members_of_last a _ (a ∷ label, value)
            (signature_member-written (a ∷ label) value h k),
      )
      (rw e refl)
