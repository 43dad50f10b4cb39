-- ===== src/Protocol/Base.antt =====
-- The signature base: verifier.py rebuilds from the request the text that signer.py signed.
use wbauth.Prelude.{
  ◌≡◌, refl, sym, ap, ◌∙◌, none, some, List, [], ◌∷◌, ◌++◌, append_assoc, map, false,
}
use wbauth.Text.{Text, str, join, text_eq, starts_with}
use wbauth.Dict.{text_keys, get}
use wbauth.Urls.{normalize_authority}
use wbauth.Signer.{Headers, base_line, signature_base}
use wbauth.Verifier.Checks.{accepted, ◌>>=◌, Incoming, UrlParts, Services}
use wbauth.Verifier.Verify.{verified_base, component_of, component_value}

join-snoc :
    (sep x y : Text) (xs : List Text)
    → join sep ((x ∷ xs) ++ y ∷ []) ≡ join sep (x ∷ xs) ++ (sep ++ y)
unfolding join
join-snoc sep x y [] = append_assoc x sep y
join-snoc sep x y (z ∷ xs) =
    ap (λ t. x ++ sep ++ t) (join-snoc sep z y xs)
    ∙ sym (append_assoc (x ++ sep) (join sep (z ∷ xs)) (sep ++ y))

-- Signer and verifier put the same lines together to the same text.
pub verified_base-eq-signature_base :
    (line : Text × Text) (lines : List (Text × Text)) (params : Text)
    → verified_base (line ∷ lines) params ≡ signature_base (line ∷ lines) params
unfolding verified_base signature_base
verified_base-eq-signature_base line lines params =
    let start = join (10 ∷ []) (map base_line (line ∷ lines)) in
    join-snoc (10 ∷ []) (base_line line) (str "\"@signature-params\": " ++ params)
      (map base_line lines)
    ∙ sym (append_assoc start (10 ∷ []) (str "\"@signature-params\": " ++ params))
    ∙ sym (append_assoc (start ++ 10 ∷ []) (str "\"@signature-params\": ") params)

module _ (S : Services) (r : Incoming) (h : Headers) (parts : UrlParts)
    (url_of : S.http_url r.url ≡ some parts) where
  pub authority_line :
      (authority : Text)
      → r.authority ≡ none
      → normalize_authority S.urlsplit r.url ≡ some authority
      → component_value S r h (str "@authority") ≡ accepted authority
  unfolding component_value component_of ◌>>=◌ text_eq
  authority_line authority own h = rw (component_value, url_of) (rw own (rw h refl))

  pub header_line :
      (name value : Text)
      → text_eq name (str "@authority") ≡ false
      → text_eq name (str "@method") ≡ false
      → text_eq name (str "@scheme") ≡ false
      → text_eq name (str "@target-uri") ≡ false
      → text_eq name (str "@path") ≡ false
      → text_eq name (str "@query") ≡ false
      → starts_with name (str "@") ≡ false
      → get name h ≡ some value
      → component_value S r h name ≡ accepted value
  unfolding component_value component_of ◌>>=◌
  header_line name value a b c d e f g found =
      rw (component_value, url_of) (rw (a, b, c) (rw (d, e, f) (rw (g, found) refl)))
