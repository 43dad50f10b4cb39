-- ===== src/Identity/Race.antt =====
-- Two processes that start at once: `Identity.load_or_generate` of identity.py.
use wbauth.Prelude.{false, ◌≡◌, sym, ap, ◌∙◌, Option, none, some}
use wbauth.Text.{Text}
use wbauth.Dict.{text_keys, get}
use wbauth.Urls.{UrlSplit}
use wbauth.Identity.Keys.{Crypto}
use wbauth.Identity.Files.{File, Disk, Env, load_keypair}
use wbauth.Identity.Agent.{
  load_or_generate, load, own_pair, retiring_pair, assembled, ◌>>=◌, new_identity,
}

module _ (C : Crypto) (urlsplit : UrlSplit) where
  open C use {Entropy}

  own_pair-lost :
      (env : Env Entropy) (path : Text) (password : Option Text) (disk : Disk) (f : File)
      → env.no_parent ≡ false
      → get path disk ≡ none
      → get path (env.between disk) ≡ some f
      → own_pair C urlsplit env path password disk
        ≡ (load_keypair C env path password (env.between disk), env.between disk)
  unfolding own_pair
  own_pair-lost env path password disk f parent free taken = simp (free, parent, taken)

  load-there :
      (env : Env Entropy) (path url : Text) (ua password : Option Text) (disk : Disk) (f : File)
      → get path disk ≡ some f
      → load C urlsplit env path url ua password disk ≡ (
          load_keypair C env path password disk >>= λ pair.
          new_identity C urlsplit pair url ua none)
  unfolding load
  load-there env path url ua password disk f there = simp (there)

  -- A process that finds no key file, and whose file another process creates first, ends with the
  -- identity that it would have loaded from that file, and changes nothing on the disk.
  pub load_or_generate_lost :
      (env : Env Entropy) (path url : Text) (ua password : Option Text) (disk : Disk) (f : File)
      → env.no_parent ≡ false
      → get path disk ≡ none
      → get path (env.between disk) ≡ some f
      → load_or_generate C urlsplit env path url ua none password disk
        ≡ (load C urlsplit env path url ua password (env.between disk), env.between disk)
  unfolding load_or_generate retiring_pair
  load_or_generate_lost env path url ua password disk f parent free taken =
      ap (assembled C urlsplit env url ua none password)
        (own_pair-lost env path password disk f parent free taken)
      ∙ ap (λ x. (x, env.between disk))
          (sym (load-there env path url ua password (env.between disk) f taken))
