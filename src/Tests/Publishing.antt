-- ===== src/Tests/Publishing.antt =====
-- A directory of one key that the server also signs with.
use wbauth.Prelude.{◌≡◌, ◌↔◌, true, refl, Option, none, some, [], ◌∷◌, ◌++◌}
use wbauth.Text.{Text, str}
use wbauth.Dict.{text_keys}
use wbauth.Urls.{UrlSplit, Split, no_port}
use wbauth.Json.{string, arr, obj, nil, cons, end, member}
use wbauth.DirectoryServer.{
  DirectorySigner, Handler, make_handler, respond, found, not_found, directory_root,
}
use wbauth.DirectoryServer.Serving.{IsKidPath, IsServed, served, respond-served_iff}

abbrev at : Text → Split
at path = record { scheme = []; hostname = none; port_of = no_port; path = path }

abbrev path_of : UrlSplit
path_of target = some (at target)

abbrev key : DirectorySigner
key = record { kid = str "k"; sign_raw = λ t. str "c2ln" }

abbrev handler : Handler
handler = record { jwks_bytes = str "{}"; kids = string (str "k") ∷ []; signers = key ∷ [] }

handler_is_made :
    make_handler
      (λ t. some (
        obj (
          member
            (str "keys")
            (arr (cons (obj (member (str "kid") (string (str "k")) end)) nil))
            end)))
      (str "{}")
      (key ∷ [])
    ≡ some handler
unfolding make_handler
handler_is_made = refl

abbrev named : Text
named = str "/.well-known/http-message-signatures-directory/k/"

key_is_served :
    respond path_of (λ t. t) handler 5 true named (some (str "H.example"))
    ≡ found
        ((str "content-type", str "application/http-message-signatures-directory+json")
          ∷ (str "content-length", str "2")
          ∷ (str "cache-control", str "public, max-age=300")
          ∷ (str "Signature", str "binding0=:c2ln:")
          ∷ (
            str "Signature-Input",
            str
                "binding0=(\"@authority\";req);created=5;keyid=\"k\";alg=\"ed25519\";expires=305;tag=\"http-message-signatures-directory\"",
          )
          ∷ [])
        (str "{}")
unfolding respond
key_is_served = refl

other_is_not_found : respond path_of (λ t. t) handler 5 true (named ++ str "x") none ≡ not_found
unfolding respond
other_is_not_found = refl

respond-served_iff_example :
    (respond path_of (λ t. t) handler 5 true named none
      ≡ served path_of (λ t. t) handler 5 true named none (at named))
    ↔ ((g : Option Text) × (r : Text) × (named ≡ directory_root ++ r)
        × IsKidPath r g
        × IsServed handler.kids g)
respond-served_iff_example =
    respond-served_iff path_of (λ t. t) handler 5 true named none (at named) refl refl
