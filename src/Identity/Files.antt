-- ===== src/Identity/Files.antt =====
-- `_password`, `_load_keypair` and `_generate_keypair_to` of identity.py over a file system.
use wbauth.Prelude.{
  ℕ, ◌%◌, Bool, not, ◌&&◌, Option, none, some, [], ◌∷◌, ◌==◌, take, if◌then◌else◌, is_some,
}
use wbauth.Text.{Text, str, contains}
use wbauth.Dict.{Dict, text_keys, get, put, has}
use wbauth.Identity.Keys.{Crypto, Loaded, ed25519, other_key, unreadable, KeyPair, key_pair}

-- A regular file: the bits of its mode, and its text.
pub record File : Type 0 where
  pub mode : ℕ
  pub text : Text

abbrev pub Disk : Type 0
Disk = Dict Text File

-- The exceptions: `encrypted` and `not_ed25519` are `TypeError`s, `bad_pem` is what the reader
-- raises, and `os_error` an `OSError` of another kind.
pub data Error : Type 0 where
  file_exists file_not_found permission_error encrypted not_ed25519 bad_pem os_error : Error
  value_error : Error

pub data Result (A : Type 0) : Type 0 where
  ok : A → Result A
  err : Error → Result A

-- What a call meets. `between` is what other processes do to the disk behind the test that a path
-- is free; `written` is the number of bytes after which writing fails, if it does.
pub record Env (Entropy : Type 0) : Type 0 where
  pub windows : Bool
  pub key_password : Option Text
  pub no_parent : Bool
  pub between : Disk → Disk
  pub written : Option ℕ
  pub entropy : Entropy

-- an environment variable that is empty counts as absent
abbrev pub given : Option Text → Option Text
given none = none
given (some []) = none
given (some (c ∷ t)) = some (c ∷ t)

-- `_password`
abbrev pub password_of : Option Text → Option Text → Option Text
password_of variable none = given variable
password_of variable (some pw) = some pw

-- `0o600`
abbrev pub private_mode : ℕ
private_mode = 384

module _ (C : Crypto) where
  open C use {Key, Entropy, generate, to_pem, from_pem}

  abbrev pub pair_of : Loaded Key → Result (KeyPair C)
  pair_of (ed25519 k) = ok (key_pair C k)
  pair_of other_key = err not_ed25519
  pair_of unreadable = err bad_pem

  -- the text of a key file, with the password
  abbrev pub read_pem : Text → Option Text → Result (KeyPair C)
  read_pem pem pw =
      if contains pem (str "ENCRYPTED") && not (is_some pw)
      then err encrypted
      else pair_of (from_pem pem (if contains pem (str "ENCRYPTED") then pw else none))

  abbrev pub load_file : Env Entropy → Option Text → Option File → Result (KeyPair C)
  load_file env password none = err file_not_found
  load_file env password (some f) =
      if not env.windows && not (f.mode % 64 == 0)
      then err permission_error
      else read_pem f.text (password_of env.key_password password)

  -- `_load_keypair`
  unfoldable pub load_keypair :
      Env Entropy → (path : Text) → Option Text → Disk → Result (KeyPair C)
  unfolding get contains
  load_keypair env path password disk = load_file env password (get path disk)

  -- the new file and the pair, or the part of the file that was written
  abbrev pub write_key :
      Env Entropy → (path : Text) → Option Text → Disk → Result (KeyPair C) × Disk
  write_key env path password disk =
      let k = generate env.entropy in
      let pem = to_pem (given (password_of env.key_password password)) k in
      elim env.written [
        | none ↦ (ok (key_pair C k), put path (record { mode = private_mode; text = pem }) disk)
        | some n ↦ (err os_error, put path (record { mode = private_mode; text = take n pem }) disk)
      ]

  -- `os.open` with `O_EXCL`, and what follows
  abbrev pub create_key :
      Env Entropy → (path : Text) → Option Text → Disk → Result (KeyPair C) × Disk
  create_key env path password disk =
      if has path disk then (err file_exists, disk) else write_key env path password disk

  -- `_generate_keypair_to`
  unfoldable pub generate_keypair_to :
      Env Entropy → (path : Text) → Option Text → Disk → Result (KeyPair C) × Disk
  unfolding get put
  generate_keypair_to env path password disk =
      if env.no_parent
      then (err os_error, disk)
      else if has path disk
      then (err file_exists, disk)
      else create_key env path password (env.between disk)
