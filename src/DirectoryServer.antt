-- ===== src/DirectoryServer.antt =====
-- _http_server/jwks_server.py: what the server answers to a request for the directory. Loading the
-- keys, TLS and the loop of the server are not modelled; `urlsplit`, base64, `json.loads` and the
-- clock are parameters.
pub mod Serving
use wbauth.Prelude.{
  ℕ, suc, ◌+◌, Bool, true, false, not, ◌&&◌, ◌||◌, Option, none, some, List, [], ◌∷◌, ◌++◌, ◌==◌,
  if◌then◌else◌, is_empty, any, all, filter, length, map, drop, take_while, drop_while,
}
use wbauth.Text.{Text, str, text_eq, starts_with, lower, join, decimal}
use wbauth.Dict.{Dict, text_keys, get}
use wbauth.Urls.{UrlSplit, Split}
use wbauth.Json.{Json, string, obj, end, arr, items, members}

abbrev pub content_type : Text
content_type = str "application/http-message-signatures-directory+json"

abbrev pub directory_tag : Text
directory_tag = str "http-message-signatures-directory"

abbrev pub directory_root : Text
directory_root = str "/.well-known/http-message-signatures-directory"

abbrev pub signature_ttl : ℕ
signature_ttl = 300

-- A key pair of `--sign-key`: its key signs a text.
pub record DirectorySigner : Type 0 where
  pub kid : Text
  pub sign_raw : Text → Text

-- `$`, which also stands before a last newline
abbrev pub at_end : Text → Bool
at_end [] = true
at_end (c ∷ s) = c == 10 && is_empty s

-- `/?$`
abbrev pub slash_end : Text → Bool
slash_end [] = true
slash_end (c ∷ s) = (c == b'/' && at_end s) || at_end (c ∷ s)

-- `(?:/([^/]+))?/?$`; the inner option is group 1
abbrev pub kid_part : Text → Option (Option Text)
kid_part [] = some none
kid_part (c ∷ s) =
    let kid = take_while (λ d. not (d == b'/')) s in
    if c == b'/' && not (is_empty kid)
    then (if slash_end (drop_while (λ d. not (d == b'/')) s) then some (some kid) else none)
    else if slash_end (c ∷ s)
    then some none
    else none

-- `PATH_RE.match`
unfoldable pub match_path : Text → Option (Option Text)
unfolding starts_with
match_path path =
    if starts_with path directory_root then kid_part (drop (length directory_root) path) else none

-- `params` of one signature
unfoldable pub binding_params : (kid : Text) → (created : ℕ) → Text
unfolding decimal
binding_params kid created =
    str "(\"@authority\";req);created="
    ++ decimal created
    ++ str ";keyid=\""
    ++ kid
    ++ str "\";alg=\"ed25519\";expires="
    ++ decimal (created + signature_ttl)
    ++ str ";tag=\""
    ++ directory_tag
    ++ str "\""

unfoldable pub binding_base : (authority params : Text) → Text
binding_base authority params =
    str "\"@authority\";req: " ++ authority ++ 10 ∷ str "\"@signature-params\": " ++ params

abbrev pub binding_label : ℕ → Text
binding_label i = str "binding" ++ decimal i

module _ (b64 : Text → Text) (authority : Text) (now : ℕ) where
  -- the members of `Signature`, from the index on
  unfoldable pub binding_signatures : ℕ → List DirectorySigner → List Text
  unfolding binding_params binding_base
  binding_signatures i [] = []
  binding_signatures i (p ∷ ps) =
      (binding_label i
        ++ str "=:"
        ++ b64 (p.sign_raw (binding_base authority (binding_params p.kid now)))
        ++ str ":")
      ∷ binding_signatures (suc i) ps

  unfoldable pub binding_inputs : ℕ → List DirectorySigner → List Text
  unfolding binding_params
  binding_inputs i [] = []
  binding_inputs i (p ∷ ps) =
      (binding_label i ++ str "=" ++ binding_params p.kid now) ∷ binding_inputs (suc i) ps

  unfoldable pub directory_signature_headers : List DirectorySigner → Dict Text Text
  unfolding binding_signatures binding_inputs join
  directory_signature_headers signers =
      (str "Signature", join (str ", ") (binding_signatures 0 signers))
      ∷ (str "Signature-Input", join (str ", ") (binding_inputs 0 signers))
      ∷ []

-- `k["kid"]`, where `none` is a `KeyError` or a `TypeError`
abbrev pub kid_of : Json → Option Json
kid_of (obj ms) = get (str "kid") (members ms)
kid_of _ = none

-- a value that can stand in a set
abbrev pub is_hashable : Json → Bool
is_hashable (obj ms) = false
is_hashable (arr vs) = false
is_hashable _ = true

unfoldable pub kids_of : List Json → Option (List Json)
unfolding get
kids_of [] = some []
kids_of (k ∷ ks) =
    let rest = kids_of ks in
    elim (kid_of k) [
      | none ↦ none
      | some kid ↦
          if is_hashable kid
          then elim rest [ none ↦ none | some kids ↦ some (kid ∷ kids) ]
          else none
    ]

-- what a loop over the value goes through; `none` is an exception
abbrev pub iterated : Json → Option (List Json)
iterated (arr vs) = some (items vs)
iterated (obj end) = some []
iterated (string []) = some []
iterated _ = none

abbrev pub keys_value : Option Json → Option (List Json)
keys_value none = some []
keys_value (some v) = iterated v

-- `served_kids`
unfoldable pub served_kids : Json → Option (List Json)
unfolding kids_of get
served_kids (obj ms) = elim (keys_value (get (str "keys") (members ms))) [
  | none ↦ none
  | some ks ↦ kids_of ks
]
served_kids _ = none

abbrev pub is_string : Text → Json → Bool
is_string kid (string s) = text_eq s kid
is_string kid _ = false

abbrev pub is_served : List Json → Text → Bool
is_served kids kid = any (is_string kid) kids

-- What `make_handler` sets up. The file is the list of its bytes.
pub record Handler : Type 0 where
  pub jwks_bytes : Text
  pub kids : List Json
  pub signers : List DirectorySigner

abbrev all_served : List Json → List DirectorySigner → Bool
all_served kids signers = all (λ (p : DirectorySigner). is_served kids p.kid) signers

-- `make_handler`; `none` is an exception
unfoldable pub make_handler :
    (loads : Text → Option Json) → (jwks_bytes : Text) → List DirectorySigner → Option Handler
unfolding served_kids text_eq
make_handler loads jwks_bytes signers = elim (loads jwks_bytes) [
  | none ↦ none
  | some jwks ↦ elim (served_kids jwks) [
    | none ↦ none
    | some kids ↦
        if all_served kids signers
        then some (record { jwks_bytes = jwks_bytes; kids = kids; signers = signers })
        else none
  ]
]

pub data Reply : Type 0 where
  not_found : Reply
  found : Dict Text Text → (body : Text) → Reply
  url_error : Reply

-- `m and (m.group(1) is None or m.group(1) in served_kids)`
abbrev pub matches : List Json → Option (Option Text) → Bool
matches kids none = false
matches kids (some none) = true
matches kids (some (some kid)) = is_served kids kid

-- `self.headers.get("host") or ""`
abbrev pub host_of : Option Text → Text
host_of none = []
host_of (some host) = host

module _ (urlsplit : UrlSplit) (b64 : Text → Text) (handler : Handler) (now : ℕ) where
  abbrev pub reply_headers : (host : Option Text) → Dict Text Text
  reply_headers host =
      (str "content-type", content_type)
      ∷ (str "content-length", decimal (length handler.jwks_bytes))
      ∷ (str "cache-control", str "public, max-age=300")
      ∷ (if is_empty handler.signers
          then []
          else directory_signature_headers b64 (lower (host_of host)) now handler.signers)

  -- `_respond`
  unfoldable pub respond : (with_body : Bool) → (path : Text) → (host : Option Text) → Reply
  unfolding match_path text_eq directory_signature_headers lower decimal
  respond with_body path host = elim (urlsplit path) [
    | none ↦ url_error
    | some parts ↦
        if matches handler.kids (match_path parts.path)
        then found (reply_headers host) (if with_body then handler.jwks_bytes else [])
        else not_found
  ]
