-- ===== src/Tests/Rotating.antt =====
-- Keys that are their own randomness, on a disk with two key files.
use wbauth.Prelude.{◌≡◌, ◌⊎◌, refl, false, Option, none, some, [], ◌∷◌, ◌++◌, drop}
use wbauth.Text.{Text, str, text_eq, contains}
use wbauth.Dict.{text_keys, get, put, remove}
use wbauth.Urls.{UrlSplit, no_port}
use wbauth.Signer.{validate_signature_agent_url}
use wbauth.Identity.Keys.{Crypto, Loaded, ed25519, KeyPair, key_pair}
use wbauth.Identity.Files.{
  Error, File, Disk, Env, permission_error, os_error, ok, err, private_mode, load_keypair,
  generate_keypair_to,
}
use wbauth.Identity.Kept.{generate_keypair_to-keeps, load-generate_keypair_to}
use wbauth.Identity.Agent.{
  Identity, keyring_active, keyring_retiring, replace_file, rotate_keyring, exported, load,
  load_or_generate,
}
use wbauth.Identity.Rotation.{
  IsPolite, rotate_keyring-keeps, rotate_keyring_failed, rotate_keyring-ok,
}
use wbauth.Identity.Race.{load_or_generate_lost}

abbrev toy_pem : Option Text → Text → Text
toy_pem none k = b'P' ∷ k
toy_pem (some pw) k = str "ENCRYPTED" ++ k

abbrev toy_key : Text → Option Text → Loaded Text
toy_key pem none = ed25519 (drop 1 pem)
toy_key pem (some pw) = ed25519 (drop 9 pem)

toy_law : (pw : Option Text) (k : Text) → toy_key (toy_pem pw k) pw ≡ ed25519 k
toy_law none k = refl
toy_law (some pw) k = refl

abbrev toy : Crypto
toy = record {
  Key = Text;
  Entropy = Text;
  generate = λ e. e;
  public_x = λ k. k;
  sign = λ k m. m;
  to_pem = toy_pem;
  from_pem = toy_key;
  hash = λ t. t;
  from_to_pem = toy_law;
}

abbrev calm : Env Text
calm = record {
  windows = false;
  key_password = none;
  no_parent = false;
  between = λ d. d;
  written = none;
  entropy = str "new";
}

abbrev full_disk : Env Text
full_disk = record calm { written = some 2 }

abbrev old_file : File
old_file = record { mode = private_mode; text = str "Pold" }

abbrev racing : Env Text
racing = record calm { between = λ d. (str "k", old_file) ∷ d }

calm-IsPolite : IsPolite calm
calm-IsPolite disk q f h = h

full_disk-IsPolite : IsPolite full_disk
full_disk-IsPolite disk q f h = h

abbrev ring : Disk
ring =
    (str "d/active.pem", old_file)
    ∷ (str "d/retiring.pem", record { mode = private_mode; text = str "Polder" })
    ∷ []

abbrev one_host : UrlSplit
one_host url =
    some (record { scheme = str "https"; hostname = some (str "h"); port_of = no_port; path = [] })

abbrev old_pair : KeyPair toy
old_pair = key_pair toy (str "old")

abbrev new_pair : KeyPair toy
new_pair = key_pair toy (str "new")

abbrev agent : Identity toy one_host
agent = record {
  signature_agent_url = str "https://h/";
  user_agent = none;
  active = old_pair;
  retiring = none;
}

abbrev later_agent : Identity toy one_host
later_agent = record agent { active = new_pair; retiring = some old_pair }

abbrev new_key_file : File
new_key_file = record { mode = private_mode; text = str "Pnew" }

abbrev later_ring : Disk
later_ring =
    (str "d/retiring.pem", old_file)
    ∷ (str "d/active.pem", record { mode = private_mode; text = str "Pnew" })
    ∷ []

ring_is_rotated :
    rotate_keyring toy one_host calm agent (str "d") none ring ≡ (ok later_agent, later_ring)
unfolding rotate_keyring text_eq validate_signature_agent_url
ring_is_rotated = refl

active_is_there : get (keyring_active (str "d")) ring ≡ some old_file
unfolding get text_eq
active_is_there = refl

wide_mode_is_refused :
    load_keypair toy calm (str "k") none ((str "k", record { mode = 416; text = str "Pold" }) ∷ [])
    ≡ err permission_error
unfolding load_keypair text_eq
wide_mode_is_refused = refl

marked_as_plain : contains (str "Pnew") (str "ENCRYPTED") ≡ false
unfolding contains
marked_as_plain = refl

no_room :
    (generate_keypair_to toy full_disk
      (keyring_active (str "d"))
      none
      (replace_file (keyring_active (str "d")) (keyring_retiring (str "d")) ring)).0
    ≡ err os_error
unfolding generate_keypair_to get put remove text_eq
no_room = refl

new_key_is_written :
    generate_keypair_to toy calm (str "k") none [] ≡ (ok new_pair, (str "k", new_key_file) ∷ [])
unfolding generate_keypair_to
new_key_is_written = refl

generate_keypair_to-keeps_example :
    ((e : Error) × (generate_keypair_to toy racing (str "k") none [] ≡ (err e, [])))
    ⊎ (get (str "k") (generate_keypair_to toy racing (str "k") none []).1 ≡ some old_file)
unfolding get text_eq
generate_keypair_to-keeps_example =
    generate_keypair_to-keeps toy racing (str "k") none [] (str "k") old_file refl

load-generate_keypair_to_example :
    load_keypair toy calm (str "k") none ((str "k", new_key_file) ∷ []) ≡ ok new_pair
load-generate_keypair_to_example =
    load-generate_keypair_to toy calm (str "k") none [] ((str "k", new_key_file) ∷ []) new_pair
      marked_as_plain new_key_is_written

rotate_keyring-keeps_example :
    let after = (rotate_keyring toy one_host full_disk agent (str "d") none ring).1 in
    (get (str "d/active.pem") after ≡ some old_file)
    ⊎ (get (str "d/retiring.pem") after ≡ some old_file)
rotate_keyring-keeps_example =
    rotate_keyring-keeps toy one_host full_disk agent (str "d") none ring old_file
      full_disk-IsPolite active_is_there

rotate_keyring_failed_example :
    let after = (rotate_keyring toy one_host full_disk agent (str "d") none ring).1 in
    (get (str "d/active.pem") after ≡ some old_file) × (get (str "d/retiring.pem") after ≡ none)
rotate_keyring_failed_example =
    rotate_keyring_failed toy one_host full_disk agent (str "d") none ring old_file os_error
      full_disk-IsPolite active_is_there no_room

rotate_keyring-ok_example :
    (old : KeyPair toy) × (load_keypair toy calm (str "d/active.pem") none ring ≡ ok old)
    × (load_keypair toy calm (str "d/active.pem") none later_ring ≡ ok new_pair)
    × (exported toy one_host later_agent ≡ new_pair ∷ (old ∷ []))
rotate_keyring-ok_example =
    rotate_keyring-ok toy one_host calm agent later_agent (str "d") none ring later_ring old_file
      calm-IsPolite marked_as_plain active_is_there ring_is_rotated

other_was_first : get (str "k") ((str "k", old_file) ∷ []) ≡ some old_file
unfolding get text_eq
other_was_first = refl

none_at_first : get {V = File} (str "k") [] ≡ none
unfolding get
none_at_first = refl

load_or_generate_lost_example :
    load_or_generate toy one_host racing (str "k") (str "https://h/") none none none [] ≡ (
      load toy one_host racing (str "k") (str "https://h/") none none ((str "k", old_file) ∷ []),
      (str "k", old_file) ∷ [],
    )
load_or_generate_lost_example =
    load_or_generate_lost toy one_host racing (str "k") (str "https://h/") none none [] old_file
      refl none_at_first other_was_first
