-- ===== src/Identity/Rotation.antt =====
-- `Identity.rotate_keyring` and `load_or_generate` of identity.py: what is on the disk afterwards.
use mathlib.Core.List.{append_cancel_left}
use mathlib.Core.Path.{subst}
use wbauth.Prelude.{
  false, ◌≡◌, ◌⊎◌, inl, inr, refl, sym, ap, ◌∙◌, Option, none, some, [], ◌∷◌, Bool-cases, arith,
}
use wbauth.Text.{Text, str, text_eq}
use wbauth.Text.Laws.{text_eq_iff, text_eq_self}
use wbauth.Dict.{text_keys, get, remove}
use wbauth.Dict.Laws.{get-put, get-put_self, get-remove}
use wbauth.Urls.{UrlSplit}
use wbauth.Identity.Keys.{Crypto, KeyPair}
use wbauth.Identity.Files.{
  File, Disk, Env, Error, Result, ok, err, load_keypair, generate_keypair_to,
}
use wbauth.Identity.Kept.{generate_keypair_to_kept_throughout, load-generate_keypair_to, IsMarked}
use wbauth.Identity.Agent.{
  Identity, ◌>>=◌, keyring_active, keyring_retiring, replace_file, rotate_keyring, renewed,
  new_identity, exported,
}

active_apart :
    (directory : Text) → text_eq (keyring_active directory) (keyring_retiring directory) ≡ false
unfolding text_eq
active_apart directory =
    elim (Bool-cases (text_eq (keyring_active directory) (keyring_retiring directory))) [
      | inr apart ↦ apart
      | inl same ↦
          let tails : str "/active.pem" ≡ str "/retiring.pem" =
            append_cancel_left directory (str "/active.pem") (str "/retiring.pem")
              ((text_eq_iff (keyring_active directory) (keyring_retiring directory)).0 same) in
          absurd (cc tails)
    ]

-- Other processes create files and leave those alone that are there.
abbrev pub IsPolite : {E : Type 0} → Env E → Type 0
IsPolite env =
    (disk : Disk) (q : Text) (f : File) → get q disk ≡ some f → get q (env.between disk) ≡ some f

get-replace_file :
    (source target : Text) (disk : Disk) (f : File)
    → get source disk ≡ some f
    → get target (replace_file source target disk) ≡ some f
get-replace_file source target disk f there =
    rw (there, replace_file) (get-put_self target f (remove source disk))

get-replace_file_source :
    (source target : Text) (disk : Disk) (f : File)
    → text_eq target source ≡ false
    → get source disk ≡ some f
    → get source (replace_file source target disk) ≡ none
get-replace_file_source source target disk f apart there =
    rw (there, replace_file)
      (ground (
        arith,
        get-put target source f (remove source disk),
        get-remove source source disk,
        text_eq_self source,
        apart,
      ))

module _ (C : Crypto) (urlsplit : UrlSplit) where
  open C use {Entropy}

  renewed-keeps :
      (env : Env Entropy) (i : Identity C urlsplit) (directory : Text) (password : Option Text)
      (made : Result (KeyPair C)) (disk : Disk) (f : File)
      → get (keyring_retiring directory) disk ≡ some f
      → let after = (renewed C urlsplit env i directory password (made, disk)).1 in
        (get (keyring_active directory) after ≡ some f)
        ⊎ (get (keyring_retiring directory) after ≡ some f)
  renewed-keeps env i directory password (err e) disk f there =
      inl (get-replace_file (keyring_retiring directory) (keyring_active directory) disk f there)
  renewed-keeps env i directory password (ok pair) disk f there = inr there

  -- Whatever fails, a rotation of the key ring never loses the active key: its file is still the
  -- active one, or it is the retiring one, where other processes leave files alone.
  pub rotate_keyring-keeps :
      (env : Env Entropy) (i : Identity C urlsplit) (directory : Text) (password : Option Text)
      (disk : Disk) (f : File)
      → IsPolite env
      → get (keyring_active directory) disk ≡ some f
      → let after = (rotate_keyring C urlsplit env i directory password disk).1 in
        (get (keyring_active directory) after ≡ some f)
        ⊎ (get (keyring_retiring directory) after ≡ some f)
  unfolding rotate_keyring
  rotate_keyring-keeps env i directory password disk f polite there =
      let A = keyring_active directory in
      let R = keyring_retiring directory in
      let moved = get-replace_file A R disk f there in
      let made = generate_keypair_to C env A password (replace_file A R disk) in
      let kept =
        generate_keypair_to_kept_throughout C env A password (replace_file A R disk) R f moved
          (polite (replace_file A R disk) R f moved) in
      rw there (renewed-keeps env i directory password made.0 made.1 f kept)

  renewed-failed :
      (env : Env Entropy) (i : Identity C urlsplit) (directory : Text) (password : Option Text)
      (made : Result (KeyPair C) × Disk) (e : Error)
      → made.0 ≡ err e
      → (renewed C urlsplit env i directory password made).1
        ≡ replace_file (keyring_retiring directory) (keyring_active directory) made.1
  renewed-failed env i directory password (err x, disk) e failed = refl
  renewed-failed env i directory password (ok pair, disk) e failed = absurd (cc)

  -- Where no new key can be written, the active key is put back, but the retiring key of the
  -- rotation before is gone.
  pub rotate_keyring_failed :
      (env : Env Entropy) (i : Identity C urlsplit) (directory : Text) (password : Option Text)
      (disk : Disk) (f : File) (e : Error)
      → IsPolite env
      → get (keyring_active directory) disk ≡ some f
      → (generate_keypair_to C env
          (keyring_active directory)
          password
          (replace_file (keyring_active directory) (keyring_retiring directory) disk)).0
        ≡ err e
      → let after = (rotate_keyring C urlsplit env i directory password disk).1 in
        (get (keyring_active directory) after ≡ some f)
        × (get (keyring_retiring directory) after ≡ none)
  unfolding rotate_keyring
  rotate_keyring_failed env i directory password disk f e polite there failed =
      let A = keyring_active directory in
      let R = keyring_retiring directory in
      let moved = get-replace_file A R disk f there in
      let made = generate_keypair_to C env A password (replace_file A R disk) in
      let kept =
        generate_keypair_to_kept_throughout C env A password (replace_file A R disk) R f moved
          (polite (replace_file A R disk) R f moved) in
      rw (there, renewed-failed env i directory password made e failed)
        (
          get-replace_file R A made.1 f kept,
          get-replace_file_source R A made.1 f (active_apart directory) kept,
        )

  identity_or : Identity C urlsplit → Result (Identity C urlsplit) → Identity C urlsplit
  identity_or d (ok i) = i
  identity_or d (err e) = d

  new_identity-ok :
      (active : KeyPair C) (url : Text) (ua : Option Text) (retiring : Option (KeyPair C))
      (i : Identity C urlsplit)
      → new_identity C urlsplit active url ua retiring ≡ ok i
      → (i.active ≡ active) × (i.retiring ≡ retiring)
  unfolding new_identity
  new_identity-ok active url ua retiring i made = ground arith

  load_keypair-of :
      (env : Env Entropy) (path path' : Text) (password : Option Text) (disk disk' : Disk)
      (f : File)
      → get path disk ≡ some f
      → get path' disk' ≡ some f
      → load_keypair C env path password disk ≡ load_keypair C env path' password disk'
  unfolding load_keypair
  load_keypair-of env path path' password disk disk' f here there = rw (here, there) refl

  bind-ok :
      {A B : Type 0} (m : Result A) (g : A → Result B) (b : B)
      → (m >>= g) ≡ ok b
      → (a : A) × (m ≡ ok a) × (g a ≡ ok b)
  bind-ok (ok a) g b h = (a, refl, h)
  bind-ok (err e) g b h = absurd (cc)

  renewed-ok :
      (env : Env Entropy) (i i' : Identity C urlsplit) (directory : Text) (password : Option Text)
      (made : Result (KeyPair C) × Disk) (disk' : Disk)
      → renewed C urlsplit env i directory password made ≡ (ok i', disk')
      → (old : KeyPair C) × (made ≡ (ok i'.active, disk'))
        × (load_keypair C env (keyring_retiring directory) password disk' ≡ ok old)
        × (i'.retiring ≡ some old)
  renewed-ok env i i' directory password (err x, disk) disk' done = absurd (cc (ap (λ p. p.0) done))
  renewed-ok env i i' directory password (ok pair, disk) disk' done =
      let same = ap (λ p. p.1) done in
      let (old, loaded, built) =
        bind-ok (load_keypair C env (keyring_retiring directory) password disk)
          (λ o. new_identity C urlsplit pair i.signature_agent_url i.user_agent (some o)) i'
          (ap (λ p. p.0) done) in
      let (fst, snd) =
        new_identity-ok pair i.signature_agent_url i.user_agent (some old) i' built in
      (
        old,
        cc,
        subst (λ d. load_keypair C env (keyring_retiring directory) password d ≡ ok old) same
            loaded,
        snd,
      )

  -- A rotation that succeeds writes a new active key, which is the one that the identity signs with
  -- and that a later start loads, and demotes the key that was active on the disk.
  pub rotate_keyring-ok :
      (env : Env Entropy) (i i' : Identity C urlsplit) (directory : Text) (password : Option Text)
      (disk disk' : Disk) (f : File)
      → IsPolite env
      → IsMarked C env password
      → get (keyring_active directory) disk ≡ some f
      → rotate_keyring C urlsplit env i directory password disk ≡ (ok i', disk')
      → (old : KeyPair C) × (load_keypair C env (keyring_active directory) password disk ≡ ok old)
        × (load_keypair C env (keyring_active directory) password disk' ≡ ok i'.active)
        × (exported C urlsplit i' ≡ i'.active ∷ (old ∷ []))
  unfolding rotate_keyring
  rotate_keyring-ok env i i' directory password disk disk' f polite marked there done =
      let A = keyring_active directory in
      let R = keyring_retiring directory in
      let moved = get-replace_file A R disk f there in
      let disk₁ = replace_file A R disk in
      let made = generate_keypair_to C env A password disk₁ in
      let kept =
        generate_keypair_to_kept_throughout C env A password disk₁ R f moved
          (polite disk₁ R f moved) in
      let (old, whole, loaded, retired) =
        renewed-ok env i i' directory password made disk' (rw there at done) in
      let kept' : get R disk' ≡ some f = ap (λ p. get R p.1) (sym whole) ∙ kept in
      (
        old,
        load_keypair-of env A R password disk disk' f there kept' ∙ loaded,
        load-generate_keypair_to C env A password disk₁ disk' i'.active marked whole,
        ground (arith, retired),
      )
