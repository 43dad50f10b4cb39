-- ===== src/Policy/Inspector/Endpoints.antt =====
-- `_origin_host`, `_endpoints`, `_parse_text` and the endpoint names of policy/inspector.py. The
-- parsers of the four files are a parameter.
use wbauth.Prelude.{
  ℕ, Bool, not, ◌&&◌, ◌||◌, Option, none, some, List, [], ◌∷◌, ◌++◌, ◌==◌, if◌then◌else◌, is_empty,
}
use wbauth.Text.{Text, str, text_eq, lower, decimal, starts_with, rstrip_of}
use wbauth.Urls.{UrlSplit, Split, Port, no_port, bad_port, port, host_name, bracketed}
use wbauth.Policy.Errors.{Exception}
use wbauth.Policy.Types.{
  Endpoint, robots, ai_txt, llms_txt, signing_directory, AiTxtResult, LlmsTxtResult,
  SigningDirectoryResult,
}

-- `if port and port != default`
unfoldable pub shows_port : (is_https : Bool) → ℕ → Bool
shows_port is_https p = not (p == 0) && not (p == (if is_https then 443 else 80))

abbrev with_port : Bool → Text → Port → Option Text
with_port is_https host no_port = some host
with_port is_https host bad_port = none
with_port is_https host (port p) =
    if shows_port is_https p then some (host ++ str ":" ++ decimal p) else some host

abbrev is_dot : ℕ → Bool
is_dot c = c == b'.'

-- the dots at the end are dropped, and plain http is marked
abbrev marked : Bool → Option Text → Option Text
marked is_https none = none
marked is_https (some host) =
    if is_https then some (rstrip_of is_dot host) else some (str "http://" ++ rstrip_of is_dot host)

abbrev origin_of : Split → Option Text
origin_of parts =
    let scheme = lower parts.scheme in
    let is_https = text_eq scheme (str "https") in
    if is_empty (host_name parts)
    then none
    else if not (is_https || text_eq scheme (str "http"))
    then none
    else marked is_https (with_port is_https (bracketed (host_name parts)) parts.port_of)

-- `_origin_host`; `none` is a `ValueError`
unfoldable pub origin_host : UrlSplit → Text → Option Text
unfolding lower shows_port rstrip_of
origin_host urlsplit url = elim (urlsplit url) [ none ↦ none | some parts ↦ origin_of parts ]

abbrev pub base_of : Text → Text
base_of host = if starts_with host (str "http://") then host else str "https://" ++ host

-- `_endpoints(host)[name]`
unfoldable pub endpoint_url : Text → Endpoint → Text
endpoint_url host robots = base_of host ++ str "/robots.txt"
endpoint_url host ai_txt = base_of host ++ str "/ai.txt"
endpoint_url host llms_txt = base_of host ++ str "/llms.txt"
endpoint_url host signing_directory =
    base_of host ++ str "/.well-known/http-message-signatures-directory"

-- `_ENDPOINT_NAMES`
abbrev pub endpoint_names : List Endpoint
endpoint_names = robots ∷ (ai_txt ∷ (llms_txt ∷ (signing_directory ∷ [])))

unfoldable pub endpoint_named : Text → Option Endpoint
endpoint_named name =
    if text_eq name (str "robots")
    then some robots
    else if text_eq name (str "ai_txt")
    then some ai_txt
    else if text_eq name (str "llms_txt")
    then some llms_txt
    else if text_eq name (str "signing_directory")
    then some signing_directory
    else none

-- `none` where a name is unknown
unfoldable pub endpoints_named : List Text → Option (List Endpoint)
unfolding endpoint_named
endpoints_named [] = some []
endpoints_named (name ∷ names) = elim (endpoint_named name) [
  | none ↦ none
  | some ep ↦ elim (endpoints_named names) [ none ↦ none | some eps ↦ some (ep ∷ eps) ]
]

-- the endpoints to look at
abbrev pub wanted_of : Option (List Text) → Option (List Endpoint)
wanted_of none = some endpoint_names
wanted_of (some names) = endpoints_named names

-- What a parser gives: a value, or an exception.
pub data ParseOutcome (A : Type 0) : Type 0 where
  read : A → ParseOutcome A
  fails : Exception → ParseOutcome A

-- What an endpoint was parsed to: robots.txt to a source, the others to their results.
pub data Item (Source : Type 0) : Type 0 where
  robots_source : Source → Item Source
  ai_result : AiTxtResult → Item Source
  llms_result : LlmsTxtResult → Item Source
  directory_result : SigningDirectoryResult → Item Source

-- The parsers, of which two also read the Content-Type.
pub record Parsers (Source : Type 0) : Type 0 where
  pub parse_robots_source : Text → Option Text → ParseOutcome Source
  pub parse_ai_txt : Text → ParseOutcome AiTxtResult
  pub parse_llms_txt : Text → ParseOutcome LlmsTxtResult
  pub parse_signing_directory : Text → Option Text → ParseOutcome SigningDirectoryResult

abbrev pub as_item :
    {Source A : Type 0} → (A → Item Source) → ParseOutcome A → ParseOutcome (Item Source)
as_item make (read a) = read (make a)
as_item make (fails e) = fails e

-- `_parse_text`
unfoldable pub parse_text :
    {Source : Type 0}
    → Parsers Source
    → Endpoint
    → Text
    → (content_type : Option Text) → ParseOutcome (Item Source)
parse_text p robots text ct = as_item robots_source (p.parse_robots_source text ct)
parse_text p ai_txt text ct = as_item ai_result (p.parse_ai_txt text)
parse_text p llms_txt text ct = as_item llms_result (p.parse_llms_txt text)
parse_text p signing_directory text ct =
    as_item directory_result (p.parse_signing_directory text ct)
