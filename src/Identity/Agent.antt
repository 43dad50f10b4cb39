-- ===== src/Identity/Agent.antt =====
-- The class `Identity` of identity.py: construction, rotation, and the key ring of a directory.
use wbauth.Prelude.{
  ℕ, Bool, true, not, ◌||◌, Option, none, some, List, [], ◌∷◌, ◌++◌, if◌then◌else◌, any, ltb, ◌==◌,
}
use wbauth.Text.{Text, str}
use wbauth.Dict.{text_keys, get, put, remove, has}
use wbauth.Json.{Json, obj, arr, member, end, of_list, string, null}
use wbauth.Urls.{UrlSplit}
use wbauth.Signer.{Signer, validate_signature_agent_url}
use wbauth.Identity.Keys.{Crypto, KeyPair, public_jwk}
use wbauth.Identity.Files.{
  Disk, Env, file_exists, file_not_found, value_error, Result, ok, err, load_keypair,
  generate_keypair_to,
}

infixl 5 ◌>>=◌
abbrev pub ◌>>=◌ : {A B : Type 0} → Result A → (A → Result B) → Result B
ok a >>= f = f a
err e >>= f = err e

abbrev is_control : ℕ → Bool
is_control c = ltb c 0x20 || c == 0x7f

-- `_validate_user_agent`
unfoldable pub validate_user_agent : Option Text → Bool
validate_user_agent none = true
validate_user_agent (some ua) = not (any is_control ua)

-- the files of a key ring
abbrev pub keyring_active : Text → Text
keyring_active directory = directory ++ str "/active.pem"

abbrev pub keyring_retiring : Text → Text
keyring_retiring directory = directory ++ str "/retiring.pem"

-- `os.replace`, where the source is there
abbrev pub replace_file : Text → Text → Disk → Disk
replace_file source target disk = elim (get source disk) [
  | none ↦ disk
  | some f ↦ put target f (remove source disk)
]

module _ (C : Crypto) (urlsplit : UrlSplit) where
  open C use {Key, Entropy, sign}

  pub record Identity : Type 0 where
    pub signature_agent_url : Text
    pub user_agent : Option Text
    pub active : KeyPair C
    pub retiring : Option (KeyPair C)

  -- `Identity.__init__`
  unfoldable pub new_identity :
      KeyPair C → Text → (user_agent : Option Text) → Option (KeyPair C) → Result Identity
  unfolding validate_user_agent
  new_identity active url ua retiring =
      if not (validate_signature_agent_url urlsplit url)
      then err value_error
      else if not (validate_user_agent ua)
      then err value_error
      else ok (record {
        signature_agent_url = url;
        user_agent = ua;
        active = active;
        retiring = retiring;
      })

  -- what `sign` of signer.py reads of an identity
  abbrev pub signer_of : Identity → Signer
  signer_of i = record {
    kid = i.active.kid;
    signature_agent_url = i.signature_agent_url;
    sign_raw = sign i.active.private_key;
  }

  abbrev pub exported : Identity → List (KeyPair C)
  exported i = elim i.retiring [ none ↦ i.active ∷ [] | some old ↦ i.active ∷ (old ∷ []) ]

  abbrev pub jwks_of : List (KeyPair C) → List Json
  jwks_of [] = []
  jwks_of (p ∷ ps) = public_jwk C p ∷ jwks_of ps

  -- `Identity.export_jwks`
  unfoldable pub export_jwks : Identity → Json
  unfolding public_jwk
  export_jwks i = obj (member (str "keys") (arr (of_list (jwks_of (exported i)))) end)

  -- `Identity.to_dict`
  abbrev pub optional_text : Option Text → Json
  optional_text none = null
  optional_text (some t) = string t

  unfoldable pub to_dict : Identity → Json
  unfolding export_jwks
  to_dict i = obj (
      member (str "kid") (string i.active.kid) (
        member (str "signature_agent_url") (string i.signature_agent_url) (
          member (str "user_agent") (optional_text i.user_agent)
            (member (str "jwks") (export_jwks i) end))))

  abbrev pub rotated : Identity → Result (KeyPair C) × Disk → Result Identity × Disk
  rotated i (err e, disk) = (err e, disk)
  rotated i (ok pair, disk) =
      (new_identity pair i.signature_agent_url i.user_agent (some i.active), disk)

  -- `Identity.rotate`, to a given path
  unfoldable pub rotate :
      Env Entropy → Identity → (path : Text) → Option Text → Disk → Result Identity × Disk
  unfolding generate_keypair_to new_identity
  rotate env i path password disk = rotated i (generate_keypair_to C env path password disk)

  abbrev pub fresh : Text → Option Text → Result (KeyPair C) × Disk → Result Identity × Disk
  fresh url ua (pair, disk) = (pair >>= λ p. new_identity p url ua none, disk)

  -- `Identity.generate`
  unfoldable pub generate_identity :
      Env Entropy
      → (path url : Text) → (user_agent password : Option Text) → Disk
      → Result Identity × Disk
  unfolding generate_keypair_to new_identity
  generate_identity env path url ua password disk =
      fresh url ua (generate_keypair_to C env path password disk)

  -- the first half of `load_or_generate`: the pair, made or read
  abbrev pub made_or_read :
      Env Entropy
      → (path : Text) → Option Text
      → Result (KeyPair C) × Disk
      → Result (KeyPair C) × Disk
  made_or_read env path password (err file_exists, disk) =
      (load_keypair C env path password disk, disk)
  made_or_read env path password (made, disk) = (made, disk)

  unfoldable pub own_pair :
      Env Entropy → (path : Text) → Option Text → Disk → Result (KeyPair C) × Disk
  unfolding load_keypair generate_keypair_to
  own_pair env path password disk =
      if has path disk
      then (load_keypair C env path password disk, disk)
      else made_or_read env path password (generate_keypair_to C env path password disk)

  -- the retiring key, if a path is given and there is a file
  unfoldable pub retiring_pair :
      Env Entropy → Option Text → Option Text → Disk → Result (Option (KeyPair C))
  unfolding load_keypair
  retiring_pair env none password disk = ok none
  retiring_pair env (some path) password disk =
      if has path disk
      then (load_keypair C env path password disk >>= λ pair. ok (some pair))
      else ok none

  abbrev pub assembled :
      Env Entropy
      → Text
      → Option Text
      → Option Text
      → Option Text
      → Result (KeyPair C) × Disk
      → Result Identity × Disk
  assembled env url ua retiring_path password (pair, disk) = (
    pair >>= λ p.
        (retiring_pair env retiring_path password disk >>= λ old. new_identity p url ua old),
    disk,
  )

  -- `Identity.load_or_generate`
  unfoldable pub load_or_generate :
      Env Entropy
      → (path url : Text) → (user_agent retiring_path password : Option Text) → Disk
      → Result Identity × Disk
  unfolding own_pair retiring_pair new_identity
  load_or_generate env path url ua retiring_path password disk =
      assembled env url ua retiring_path password (own_pair env path password disk)

  -- `Identity.load`
  unfoldable pub load :
      Env Entropy → (path url : Text) → (user_agent password : Option Text) → Disk → Result Identity
  unfolding load_keypair new_identity
  load env path url ua password disk =
      if has path disk
      then (load_keypair C env path password disk >>= λ pair. new_identity pair url ua none)
      else err file_not_found

  -- `Identity.load_keyring`
  abbrev pub load_keyring :
      Env Entropy
      → (directory url : Text) → (user_agent password : Option Text) → Disk
      → Result Identity × Disk
  load_keyring env directory url ua password disk =
      load_or_generate env (keyring_active directory) url ua (some (keyring_retiring directory))
        password disk

  -- behind the new key: it is in place, or the old one is moved back
  abbrev pub renewed :
      Env Entropy
      → Identity
      → (directory : Text) → Option Text
      → Result (KeyPair C) × Disk
      → Result Identity × Disk
  renewed env i directory password (err e, disk) =
      (err e, replace_file (keyring_retiring directory) (keyring_active directory) disk)
  renewed env i directory password (ok pair, disk) = (
    load_keypair C env (keyring_retiring directory) password disk >>= λ old.
        new_identity pair i.signature_agent_url i.user_agent (some old),
    disk,
  )

  -- `Identity.rotate_keyring`
  unfoldable pub rotate_keyring :
      Env Entropy → Identity → (directory : Text) → Option Text → Disk → Result Identity × Disk
  unfolding get put remove generate_keypair_to load_keypair new_identity
  rotate_keyring env i directory password disk =
      if has (keyring_active directory) disk
      then renewed env i directory password (
          generate_keypair_to C env (keyring_active directory) password
            (replace_file (keyring_active directory) (keyring_retiring directory) disk))
      else (err file_not_found, disk)
