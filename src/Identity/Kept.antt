-- ===== src/Identity/Kept.antt =====
-- Key files are never overwritten by `_generate_keypair_to` of identity.py, and can be read back.
use wbauth.Prelude.{
  ◌≡◌, ◌⊎◌, ◌∙◌, refl, ap, Option, none, some, [], ◌∷◌, Bool-cases, Option-cases, inl, inr, arith,
  is_some,
}
use wbauth.Text.{Text, str, text_eq, contains}
use wbauth.Text.Laws.{text_eq_iff}
use wbauth.Dict.{text_keys, get, put}
use wbauth.Dict.Laws.{get-put, get-put_self}
use wbauth.Identity.Keys.{Crypto, KeyPair, key_pair}
use wbauth.Identity.Files.{
  File, Disk, Env, Error, Result, ok, err, given, password_of, private_mode, load_keypair,
  write_key, create_key, generate_keypair_to, read_pem,
}

module _ (C : Crypto) where
  open C use {Entropy, generate, to_pem}

  get-put_other :
      (q path : Text) (f g : File) (disk : Disk)
      → get q disk ≡ some f
      → get path disk ≡ none
      → get q (put path g disk) ≡ some f
  get-put_other q path f g disk there free = elim (Bool-cases (text_eq path q)) [
    | inl same ↦ absurd (ground (arith, rw ((text_eq_iff path q).0 same) at free, there))
    | inr apart ↦ ground (arith, get-put path q g disk, apart, there)
  ]

  create_key-keeps :
      (env : Env Entropy) (path : Text) (password : Option Text) (disk : Disk) (q : Text) (f : File)
      → get q disk ≡ some f
      → get q (create_key C env path password disk).1 ≡ some f
  create_key-keeps env path password disk q f there = elim (Option-cases (get path disk)) [
    | inr (g, taken) ↦ rw taken there
    | inl free ↦ elim (Option-cases env.written) [
      | inl whole ↦ rw (free, whole) (get-put_other q path f _ disk there free)
      | inr (n, part) ↦ rw (free, part) (get-put_other q path f _ disk there free)
    ]
  ]

  -- A file that is there when the key file is created, also one that another process has made
  -- since the test for it, stays as it is whatever the outcome: no key is ever overwritten. A call
  -- that gives up before it creates the file changes nothing.
  pub generate_keypair_to-keeps :
      (env : Env Entropy) (path : Text) (password : Option Text) (disk : Disk) (q : Text) (f : File)
      → get q (env.between disk) ≡ some f
      → ((e : Error) × (generate_keypair_to C env path password disk ≡ (err e, disk)))
        ⊎ (get q (generate_keypair_to C env path password disk).1 ≡ some f)
  unfolding generate_keypair_to
  generate_keypair_to-keeps env path password disk q f there = elim (Bool-cases env.no_parent) [
    | inl orphan ↦ rw orphan (inl (_, refl))
    | inr parent ↦ elim (Option-cases (get path disk)) [
      | inr (g, taken) ↦ rw (parent, taken) (inl (_, refl))
      | inl free ↦
          rw (parent, free) (inr (create_key-keeps env path password (env.between disk) q f there))
    ]
  ]

  pub generate_keypair_to_kept_throughout :
      (env : Env Entropy) (path : Text) (password : Option Text) (disk : Disk) (q : Text) (f : File)
      → get q disk ≡ some f
      → get q (env.between disk) ≡ some f
      → get q (generate_keypair_to C env path password disk).1 ≡ some f
  generate_keypair_to_kept_throughout env path password disk q f before there =
      elim (generate_keypair_to-keeps env path password disk q f there) [
        | inl (e, untouched) ↦ ap (λ r. get q r.1) untouched ∙ before
        | inr kept ↦ kept
      ]

  -- the password that a new file is written under
  abbrev pub password_for : Env Entropy → Option Text → Option Text
  password_for env password = given (password_of env.key_password password)

  -- A new key file says that it is encrypted exactly when it is.
  abbrev pub IsMarked : Env Entropy → Option Text → Type 0
  IsMarked env password =
      contains (to_pem (password_for env password) (generate env.entropy)) (str "ENCRYPTED")
      ≡ is_some (password_for env password)

  read_pem-to_pem :
      (pw : Option Text) (k : C.Key)
      → contains (to_pem (given pw) k) (str "ENCRYPTED") ≡ is_some (given pw)
      → read_pem C (to_pem (given pw) k) pw ≡ ok (key_pair C k)
  read_pem-to_pem none k marked = rw (marked, C.from_to_pem none k) refl
  read_pem-to_pem (some []) k marked = rw (marked, C.from_to_pem none k) refl
  read_pem-to_pem (some (c ∷ t)) k marked = rw (marked, C.from_to_pem (some (c ∷ t)) k) refl

  -- the file of a new key
  abbrev pub new_file : Env Entropy → Option Text → File
  new_file env password = record {
    mode = private_mode;
    text = to_pem (password_for env password) (generate env.entropy);
  }

  abbrev ok_or : KeyPair C → Result (KeyPair C) → KeyPair C
  ok_or d (ok p) = p
  ok_or d (err e) = d

  write_key-ok :
      (env : Env Entropy) (path : Text) (password : Option Text) (disk disk' : Disk)
      (pair : KeyPair C)
      → write_key C env path password disk ≡ (ok pair, disk')
      → (key_pair C (generate env.entropy) ≡ pair) × (get path disk' ≡ some (new_file env password))
  write_key-ok env path password disk disk' pair made = elim (Option-cases env.written) [
    | inr (n, part) ↦ absurd (cc (rw part at made))
    | inl whole ↦
        let same = ap (λ r. ok_or pair r.0) (rw whole at made) in
        let disks = ap (λ r. r.1) (rw whole at made) in
        (same, rw (← disks) (get-put_self path (new_file env password) disk))
  ]

  generate_keypair_to-ok :
      (env : Env Entropy) (path : Text) (password : Option Text) (disk disk' : Disk)
      (pair : KeyPair C)
      → generate_keypair_to C env path password disk ≡ (ok pair, disk')
      → (key_pair C (generate env.entropy) ≡ pair) × (get path disk' ≡ some (new_file env password))
  unfolding generate_keypair_to
  generate_keypair_to-ok env path password disk disk' pair made = elim (Bool-cases env.no_parent) [
    | inl orphan ↦ absurd (cc (rw orphan at made))
    | inr parent ↦ elim (Option-cases (get path disk)) [
      | inr (g, taken) ↦ absurd (cc (rw (parent, taken) at made))
      | inl free ↦ elim (Option-cases (get path (env.between disk))) [
        | inr (g, taken) ↦ absurd (cc (rw (parent, free, taken) at made))
        | inl open_path ↦
            write_key-ok env path password (env.between disk) disk' pair
              (rw (parent, free, open_path) at made)
      ]
    ]
  ]

  -- A key pair that was generated is what its file holds: loading it under the same password gives
  -- the same pair.
  pub load-generate_keypair_to :
      (env : Env Entropy) (path : Text) (password : Option Text) (disk disk' : Disk)
      (pair : KeyPair C)
      → IsMarked env password
      → generate_keypair_to C env path password disk ≡ (ok pair, disk')
      → load_keypair C env path password disk' ≡ ok pair
  unfolding load_keypair
  load-generate_keypair_to env path password disk disk' pair marked made =
      let (same, file) = generate_keypair_to-ok env path password disk disk' pair made in
      ground (
        arith,
        file,
        same,
        read_pem-to_pem (password_of env.key_password password) (generate env.entropy) marked,
      )
