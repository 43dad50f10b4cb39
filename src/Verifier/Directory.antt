-- ===== src/Verifier/Directory.antt =====
-- `_directory_url` and `JwksCache` of verifier.py: the keys of a directory, fetched or remembered.
pub mod Remembered
use wbauth.Prelude.{
  ℕ, ◌+◌, Bool, true, false, not, ◌&&◌, ◌||◌, Option, none, some, List, [], ◌∷◌, ◌++◌, ltb, ◌==◌,
  if◌then◌else◌, length, is_empty,
}
use wbauth.Text.{Text, str, text_eq}
use wbauth.Dict.{Dict, text_keys, get, put}
use wbauth.Json.{Json, obj, arr, Items, items, members}
use wbauth.Policy.Inspector.Private.{Addresses, resolves_private}
use wbauth.Verifier.Checks.{
  Checked, accepted, refused, ◌>>=◌, required, other_exception, directory_insecure,
  directory_private, directory_refused, directory_too_large, directory_unreachable, not_a_jwks,
}

-- `httpx.URL` of a Signature-Agent. `at_directory` is the URL with the directory's path and without
-- a query and a fragment.
pub record AgentUrl : Type 0 where
  pub scheme : Text
  pub path : Text
  pub whole : Text
  pub at_directory : Text

-- `_directory_url`
unfoldable pub directory_url : (Text → Option AgentUrl) → Text → Checked Text
directory_url parse agent = elim (parse agent) [
  | none ↦ refused other_exception
  | some u ↦
      if not (text_eq u.scheme (str "https"))
      then refused directory_insecure
      else if is_empty u.path || text_eq u.path (str "/")
      then accepted u.at_directory
      else accepted u.whole
]

-- `DIRECTORY_MAX_BYTES`
abbrev pub directory_max : ℕ
directory_max = 65536

-- What a request gives: an `HTTPError`, or a status and chunks, which an `HTTPError` may break off.
pub data Reply : Type 0 where
  unreachable : Reply
  streams : (status_code : ℕ) (chunks : List Text) (broken : Bool) → Reply

-- The code around the cache at one call. Both readings of the clock are given.
pub record Surroundings : Type 0 where
  pub host : Text → Option Text
  pub reply : Text → Reply
  pub loads : Text → Option Json
  pub start : ℕ
  pub finish : ℕ
  pub attempt : ℕ

pub record JwksCache : Type 0 where
  pub ttl : ℕ
  pub allow_private : Bool
  pub entries : Dict Text (ℕ × List Json)

-- the loop over the chunks
unfoldable pub read_directory : (broken : Bool) → Text → List Text → Checked Text
read_directory broken buf [] = if broken then refused directory_unreachable else accepted buf
read_directory broken buf (chunk ∷ chunks) =
    let longer = buf ++ chunk in
    let rest = read_directory broken longer chunks in
    if ltb directory_max (length longer) then refused directory_too_large else rest

unfoldable pub body_of : Reply → Checked Text
unfolding read_directory
body_of unreachable = refused directory_unreachable
body_of (streams status chunks broken) =
    if status == 200 then read_directory broken [] chunks else refused directory_refused

-- `json.loads(…).get("keys", [])`, which has to be a list
abbrev pub listed_keys : Option Json → Checked (List Json)
listed_keys none = accepted []
listed_keys (some (arr ks)) = accepted (items ks)
listed_keys (some _) = refused not_a_jwks

unfoldable pub keys_in : Option Json → Checked (List Json)
unfolding get
keys_in (some (obj ms)) = listed_keys (get (str "keys") (members ms))
keys_in _ = refused not_a_jwks

-- the keys, if they are remembered and still fresh
unfoldable pub fresh_keys : ℕ → Option (ℕ × List Json) → Option (List Json)
fresh_keys now none = none
fresh_keys now (some (until, ks)) = if ltb now until then some ks else none

module _ (A : Addresses) where
  abbrev pub vetted_host : Bool → ℕ → Text → Checked Bool
  vetted_host allow_private attempt host =
      if not allow_private && resolves_private A attempt host
      then refused directory_private
      else accepted true

  -- the request
  unfoldable pub fetch_keys : Surroundings → Bool → Text → Checked (List Json)
  unfolding body_of keys_in
  fetch_keys around allow_private url = do
    host ← required other_exception (around.host url)
    vetted ← vetted_host allow_private around.attempt host
    body ← body_of (around.reply url)
    keys_in (around.loads body)

  abbrev pub remember :
      Surroundings → Text → JwksCache → Checked (List Json) → Checked (List Json) × JwksCache
  remember around url cache (refused e) = (refused e, cache)
  remember around url cache (accepted ks) = (
    accepted ks,
    record cache { entries = put url (around.finish + cache.ttl, ks) cache.entries },
  )

  -- `JwksCache.keys`
  unfoldable pub keys : Surroundings → Text → JwksCache → Checked (List Json) × JwksCache
  unfolding get put fresh_keys fetch_keys
  keys around url cache = elim (fresh_keys around.start (get url cache.entries)) [
    | some ks ↦ (accepted ks, cache)
    | none ↦ remember around url cache (fetch_keys around cache.allow_private url)
  ]
