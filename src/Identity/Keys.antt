-- ===== src/Identity/Keys.antt =====
-- `KeyPair` and `_compute_kid` of identity.py. The library cryptography is a parameter.
use wbauth.Prelude.{Option, ◌++◌, ◌≡◌}
use wbauth.Text.{Text, str}
use wbauth.Json.{Json, string, obj, member, end}

-- What a PEM file turns out to hold: an Ed25519 key, another kind of key, or nothing that
-- `load_pem_private_key` can read under the password.
pub data Loaded (Key : Type 0) : Type 0 where
  ed25519 : Key → Loaded Key
  other_key unreadable : Loaded Key

-- Ed25519 keys. `public_x` is the public key in base64url, `to_pem` the PKCS8 text under an
-- optional password, `hash` SHA-256 in base64url, and `generate` takes its randomness.
pub record Crypto : Type 1 where
  pub Key : Type 0
  pub Entropy : Type 0
  pub generate : Entropy → Key
  pub public_x : Key → Text
  pub sign : Key → Text → Text
  pub to_pem : Option Text → Key → Text
  pub from_pem : Text → Option Text → Loaded Key
  pub hash : Text → Text
  pub from_to_pem : (pw : Option Text) (k : Key) → from_pem (to_pem pw k) pw ≡ ed25519 k

module _ (C : Crypto) where
  open C use {Key, public_x, hash}

  pub record KeyPair : Type 0 where
    pub private_key : Key
    pub kid : Text

  -- `_compute_kid`: the thumbprint of the public key
  unfoldable pub compute_kid : Key → Text
  compute_kid k =
      hash (str "{\"crv\":\"Ed25519\",\"kty\":\"OKP\",\"x\":\"" ++ (public_x k ++ str "\"}"))

  -- the pair of a key
  abbrev pub key_pair : Key → KeyPair
  key_pair k = record { private_key = k; kid = compute_kid k }

  -- `KeyPair.public_jwk`
  unfoldable pub public_jwk : KeyPair → Json
  public_jwk p = obj (
      member (str "crv") (string (str "Ed25519")) (
        member (str "kty") (string (str "OKP")) (
          member (str "kid") (string p.kid)
            (member (str "x") (string (public_x p.private_key)) end))))
