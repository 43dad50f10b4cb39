-- ===== src/Protocol/Params.antt =====
-- The signature parameters: what `_sign_fast` of signer.py writes, `_parse_params` of verifier.py
-- reads.
use wbauth.Prelude.{
  ℕ, zero, ◌-◌, true, false, ◌||◌, ◌≡◌, refl, ap, ◌∙◌, Option, some, List, [], ◌∷◌, ◌++◌, ◌==◌,
  arith, all, length, append_assoc,
}
use wbauth.Text.{Text, str, decimal, is_space}
use wbauth.Matching.{spaces?}
use wbauth.StructuredFields.{sf_string, replace, is_lcalpha, key_code}
use wbauth.Signer.{web_bot_auth_tag}
use wbauth.Verifier.Parse.{consumed, value_end, key_end, assigned, param, params}
use wbauth.Text.Solid.{ends_solid, ends_solid-append}
use wbauth.Protocol.Pieces.{length-diff, consumed-append, drop_while-append}
use wbauth.Protocol.Values.{value_end-decimal, value_end-sf_string}

params_skip : (u left : Text) → params (length u) (u ++ left) ≡ params zero left
unfolding params
params_skip [] left = refl
params_skip (a ∷ u) left = params_skip u left

-- what can be a key
abbrev pub IsKey : Text → Type 0
IsKey [] = ⊥
IsKey (a ∷ s) = ((is_lcalpha a || a == b'*') ≡ true) × (all key_code s ≡ true)

pub key_start : (a : ℕ) → (is_lcalpha a || a == b'*') ≡ true → is_space a ≡ false
key_start a h = ground arith

pub key_end-append :
    (k : Text) (c : ℕ) (rest : Text)
    → IsKey k
    → key_code c ≡ false
    → key_end (k ++ c ∷ rest) ≡ some (c ∷ rest)
unfolding key_end
key_end-append [] c rest h e = absurd h
key_end-append (a ∷ k) c rest (h, i) e = rw h (ap some (drop_while-append key_code k c rest i e))

assigned-append :
    (v rest : Text)
    → value_end (v ++ rest) ≡ some rest
    → assigned (b'=' ∷ (v ++ rest)) ≡ some (v, rest)
unfolding assigned
assigned-append v rest h = rw (h, consumed-append v rest) refl

param_of_parts :
    (s rest v left : Text)
    → key_end (spaces? s) ≡ some rest
    → assigned rest ≡ some (v, left)
    → param (b';' ∷ s) ≡ some ((consumed (spaces? s) rest, some v), left)
unfolding param
param_of_parts s rest v left h k = ground (arith, h, k)

pub spaces?-key : (k rest : Text) → IsKey k → spaces? (k ++ rest) ≡ k ++ rest
spaces?-key [] rest h = absurd h
spaces?-key (a ∷ k) rest (h, i) = rw (key_start a h) refl

param-append :
    (k v rest : Text)
    → IsKey k
    → value_end (v ++ rest) ≡ some rest
    → param (b';' ∷ (k ++ b'=' ∷ (v ++ rest))) ≡ some ((k, some v), rest)
param-append k v rest h e =
    let s = b'=' ∷ (v ++ rest) in
    let start : spaces? (k ++ s) ≡ k ++ s = spaces?-key k s h in
    let key : consumed (spaces? (k ++ s)) s ≡ k = rw start (consumed-append k s) in
    let found : key_end (spaces? (k ++ s)) ≡ some s =
      rw start (key_end-append k b'=' (v ++ rest) h refl) in
    param_of_parts (k ++ s) s v rest found (assigned-append v rest e)
    ∙ ap (λ t. some ((t, some v), rest)) key

params_of_param :
    (a : ℕ) (s left : Text) (kv : Text × Option Text) (kvs : List (Text × Option Text)) (end : Text)
    → param (a ∷ s) ≡ some (kv, left)
    → params (length s - length left) s ≡ (kvs, end)
    → params zero (a ∷ s) ≡ (kv ∷ kvs, end)
unfolding params
params_of_param a s left kv kvs end h k = ground (arith, h, k)

params-append :
    (k v rest : Text) (kvs : List (Text × Option Text)) (end : Text)
    → IsKey k
    → value_end (v ++ rest) ≡ some rest
    → params zero rest ≡ (kvs, end)
    → params zero (b';' ∷ (k ++ b'=' ∷ (v ++ rest))) ≡ ((k, some v) ∷ kvs, end)
params-append k v rest kvs end h e f =
    let s : (k ++ b'=' ∷ v) ++ rest ≡ k ++ b'=' ∷ (v ++ rest) = append_assoc k (b'=' ∷ v) rest in
    params_of_param b';' (k ++ b'=' ∷ (v ++ rest)) rest (k, some v) kvs end
      (param-append k v rest h e)
      (rw (← s, length-diff (k ++ b'=' ∷ v) rest) (params_skip (k ++ b'=' ∷ v) rest ∙ f))

abbrev pub tag_string : Text
tag_string = str "\"web-bot-auth\""

-- the six parameters, behind the list of components, from the last to the first
abbrev from_tag : Text
from_tag = str ";tag=" ++ tag_string

abbrev from_nonce : Text → Text
from_nonce nonce_string = str ";nonce=" ++ (nonce_string ++ from_tag)

abbrev from_expires : ℕ → Text → Text
from_expires e nonce_string = str ";expires=" ++ (decimal e ++ from_nonce nonce_string)

abbrev from_alg : ℕ → Text → Text
from_alg e nonce_string = str ";alg=" ++ (str "\"ed25519\"" ++ from_expires e nonce_string)

abbrev from_kid : ℕ → (kid_string nonce_string : Text) → Text
from_kid e kid_string nonce_string = str ";keyid=" ++ (kid_string ++ from_alg e nonce_string)

abbrev pub params_text : (created expires : ℕ) → (kid_string nonce_string : Text) → Text
params_text c e kid_string nonce_string =
    str ";created=" ++ (decimal c ++ from_kid e kid_string nonce_string)

abbrev pub params_read :
    (created expires : ℕ) → (kid_string nonce_string : Text) → List (Text × Option Text)
params_read c e kid_string nonce_string =
    (str "created", some (decimal c))
    ∷ (str "keyid", some kid_string)
    ∷ (str "alg", some (str "\"ed25519\""))
    ∷ (str "expires", some (decimal e))
    ∷ (str "nonce", some nonce_string)
    ∷ (str "tag", some tag_string)
    ∷ []

pub alg_written : sf_string (str "ed25519") ≡ some (str "\"ed25519\"")
unfolding sf_string replace
alg_written = refl

pub tag_written : sf_string web_bot_auth_tag ≡ some tag_string
unfolding sf_string replace
tag_written = refl

params_nil : params zero [] ≡ ([], [])
unfolding params
params_nil = refl

params-from_tag : params zero from_tag ≡ ((str "tag", some tag_string) ∷ [], [])
params-from_tag =
    params-append (str "tag") tag_string [] [] [] (refl, refl)
      (value_end-sf_string web_bot_auth_tag tag_string [] tag_written) params_nil

module _ (nonce nonce_string : Text) (k : sf_string nonce ≡ some nonce_string) where
  params-from_nonce :
      params zero (from_nonce nonce_string)
      ≡ ((str "nonce", some nonce_string) ∷ (str "tag", some tag_string) ∷ [], [])
  params-from_nonce =
      params-append (str "nonce") nonce_string from_tag _ _ (refl, refl)
        (value_end-sf_string nonce nonce_string from_tag k) params-from_tag

  params-from_alg :
      (e : ℕ)
      → params zero (from_alg e nonce_string) ≡ (
        (str "alg", some (str "\"ed25519\""))
            ∷ (str "expires", some (decimal e))
            ∷ (str "nonce", some nonce_string)
            ∷ (str "tag", some tag_string)
            ∷ [],
        [],
      )
  params-from_alg e =
      params-append (str "alg") (str "\"ed25519\"") (from_expires e nonce_string) _ _ (refl, refl)
        (value_end-sf_string (str "ed25519") _ (from_expires e nonce_string) alg_written)
        (params-append (str "expires") (decimal e) (from_nonce nonce_string) _ _ (refl, refl)
          (value_end-decimal e (str "nonce=" ++ (nonce_string ++ from_tag))) params-from_nonce)

  pub params-params_text :
      (c e : ℕ) (kid kid_string : Text)
      → sf_string kid ≡ some kid_string
      → params zero (params_text c e kid_string nonce_string)
        ≡ (params_read c e kid_string nonce_string, [])
  params-params_text c e kid kid_string h =
      params-append (str "created") (decimal c) (from_kid e kid_string nonce_string) _ _
        (refl, refl) (value_end-decimal c (str "keyid=" ++ (kid_string ++ from_alg e nonce_string)))
        (params-append (str "keyid") kid_string (from_alg e nonce_string) _ _ (refl, refl)
          (value_end-sf_string kid kid_string (from_alg e nonce_string) h) (params-from_alg e))

pub ends_solid-params_text :
    (c e : ℕ) (kid_string nonce_string : Text)
    → ends_solid (params_text c e kid_string nonce_string) ≡ true
ends_solid-params_text c e ks ns =
    ends_solid-append (str ";created=") (decimal c ++ from_kid e ks ns) (
      ends_solid-append (decimal c) (from_kid e ks ns) (
        ends_solid-append (str ";keyid=") (ks ++ from_alg e ns) (
          ends_solid-append ks (from_alg e ns) (
            ends_solid-append (str ";alg=\"ed25519\";expires=") (decimal e ++ from_nonce ns) (
              ends_solid-append (decimal e) (from_nonce ns) (
                ends_solid-append (str ";nonce=") (ns ++ from_tag)
                  (ends_solid-append ns from_tag refl)))))))
