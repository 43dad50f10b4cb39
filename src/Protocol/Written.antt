-- ===== src/Protocol/Written.antt =====
-- The two header values that `_sign_fast` of signer.py returns, in the form that is read.
use wbauth.Prelude.{ℕ, Bool, true, false, ◌≡◌, sym, ap, ◌∙◌, some, ◌++◌, arith, append_assoc, map}
use wbauth.Text.{Text, str, join, decimal}
use wbauth.StructuredFields.{sf_string}
use wbauth.Signer.{
  Stamp, ok, require, bad_string, components_for, signature_params, whole_seconds, web_bot_auth_tag,
  quoted,
}
use wbauth.Signer.Covered.{bind-ok, require-some}
use wbauth.Protocol.Params.{params_text, tag_string, tag_written}
use wbauth.Protocol.Members.{list_text}

append_chain :
    (a b c d e f g h i j : Text)
    → a ++ b ++ c ++ d ++ e ++ f ++ g ++ h ++ i ++ j
      ≡ a ++ (b ++ (c ++ (d ++ (e ++ (f ++ (g ++ (h ++ (i ++ j))))))))
append_chain a b c d e f g h i j = simp append_assoc

-- the same parts, as the source puts them together
abbrev joined_text : Bool → (created expires : ℕ) → (ks ns ts : Text) → Text
joined_text digest c e ks ns ts =
    str "("
    ++ join (str " ") (map quoted (components_for digest))
    ++ str ")"
    ++ str ";created="
    ++ decimal c
    ++ str ";keyid="
    ++ ks
    ++ str ";alg=\"ed25519\""
    ++ str ";expires="
    ++ decimal e
    ++ str ";nonce="
    ++ ns
    ++ str ";tag="
    ++ ts

joined_text-eq-list_text :
    (digest : Bool) (c e : ℕ) (ks ns : Text)
    → joined_text digest c e ks ns tag_string ≡ list_text digest (params_text c e ks ns)
unfolding join
joined_text-eq-list_text false c e ks ns =
    ap (λ t. str "(\"@authority\" \"signature-agent\");created=" ++ t)
      (append_chain (decimal c) (str ";keyid=") ks (str ";alg=\"ed25519\"") (str ";expires=")
        (decimal e) (str ";nonce=") ns (str ";tag=") tag_string)
joined_text-eq-list_text true c e ks ns =
    ap (λ t. str "(\"@authority\" \"signature-agent\" \"content-digest\");created=" ++ t)
      (append_chain (decimal c) (str ";keyid=") ks (str ";alg=\"ed25519\"") (str ";expires=")
        (decimal e) (str ";nonce=") ns (str ";tag=") tag_string)

ok_injective : {A : Type 0} (a b : A) → ok a ≡ ok b → a ≡ b
ok_injective a b h = ground arith

pub some_injective : {A : Type 0} (a b : A) → some a ≡ some b → a ≡ b
some_injective a b h = ground arith

-- What `Signature-Input` shows behind the label.
pub signature_params-written :
    (digest : Bool) (kid : Text) (stamp : Stamp) (params : Text)
    → signature_params (components_for digest) kid stamp ≡ ok params
    → (ks : Text) × (ns : Text) × (sf_string kid ≡ some ks)
      × (sf_string stamp.nonce ≡ some ns)
      × (params
          ≡ list_text digest
              (params_text (whole_seconds stamp.created) (whole_seconds stamp.expires) ks ns))
unfolding signature_params
signature_params-written digest kid stamp params h =
    let c = whole_seconds stamp.created in
    let e = whole_seconds stamp.expires in
    let (ks, ek, h₁) = bind-ok (require bad_string (sf_string kid)) _ params h in
    let (ns, en, h₂) = bind-ok (require bad_string (sf_string stamp.nonce)) _ params h₁ in
    let (ts, et, h₃) = bind-ok (require bad_string (sf_string web_bot_auth_tag)) _ params h₂ in
    (
      ks,
      ns,
      require-some _ _ _ ek,
      require-some _ _ _ en,
      ok_injective params (joined_text digest c e ks ns ts) (sym h₃)
          ∙ ap (joined_text digest c e ks ns)
              (some_injective ts tag_string (sym (require-some _ _ _ et) ∙ tag_written))
          ∙ joined_text-eq-list_text digest c e ks ns,
    )
