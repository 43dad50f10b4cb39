-- ===== src/Policy/Inspector/Fetch.antt =====
-- `_fetch_one` of policy/inspector.py: one endpoint, its redirects followed by hand. httpx is a
-- parameter: URLs, and what the network answers to a request at each hop.
pub mod Vetting
pub mod Validators
pub mod Lines
pub mod Bodies
use wbauth.Prelude.{
  ℕ, zero, suc, Bool, true, false, not, ◌&&◌, ◌||◌, Option, none, some, List, [], ◌∷◌, ◌++◌, ◌==◌,
  leb, ltb, if◌then◌else◌, any, is_empty, length, take, reverse, drop_while, filter,
}
use wbauth.Text.{Text, str, text_eq, lower}
use wbauth.Dict.{Dict, text_keys, get, put, remove, update}
use wbauth.Policy.Errors.{
  Exception, private_address_error, fetch_error, http_status_error, too_many_redirects, other,
}
use wbauth.Policy.Types.{Endpoint, robots, ai_txt, llms_txt, signing_directory}
use wbauth.Policy.Inspector.Private.{Addresses, is_private_host, resolves_private}

abbrev pub Headers : Type 0
Headers = Dict Text Text

pub record Response : Type 0 where
  pub status_code : ℕ
  pub headers : Headers
  pub content : Text

-- What `client.stream` gives: it raises, or the head of a response, its chunks, and the exception
-- that breaks them off, if one does.
pub data Answer : Type 0 where
  raises : Exception → Answer
  streams :
      (status_code : ℕ) (headers : Headers) (chunks : List Text) (failure : Option Exception)
      → Answer

-- `answer left url headers` is the answer at the hop that leaves `left` redirects.
pub record Network : Type 1 where
  pub Url : Type 0
  pub scheme : Url → Text
  pub host : Url → Text
  pub join : Url → Text → Url
  pub answer : ℕ → Url → Headers → Answer

pub data Fetched : Type 0 where
  raised : Exception → Fetched
  fetched : Response → Fetched

abbrev pub max_redirects : ℕ
max_redirects = 5

abbrev pub cap : Endpoint → ℕ
cap robots = 512000
cap _ = 1000000

abbrev is_redirect : ℕ → Bool
is_redirect code = code == 301 || code == 302 || code == 303 || code == 307 || code == 308

abbrev dropped_on_rebuild : Text × Text → Bool
dropped_on_rebuild header =
    let k = lower header.0 in
    text_eq k (str "content-encoding")
    || text_eq k (str "content-length")
    || text_eq k (str "transfer-encoding")

abbrev pub is_newline : ℕ → Bool
is_newline c = c == 10

-- `del buf[nl + 1:]`, where there is a newline
unfoldable pub whole_lines : Text → Text
whole_lines buf =
    let back = drop_while (λ c. not (is_newline c)) (reverse buf) in
    if is_empty back then buf else reverse back

pub data Body : Type 0 where
  complete : Text → Body
  broken : Exception → Body

-- what happens when the buffer has passed the cap
abbrev pub over_cap : Endpoint → Text → Body
over_cap robots buf = complete (whole_lines (take (cap robots) buf))
over_cap _ buf = broken (fetch_error (str "body exceeds its cap"))

abbrev pub at_end : Option Exception → Text → Body
at_end none buf = complete buf
at_end (some e) buf = broken e

-- the loop over the chunks
unfoldable pub read_body : Endpoint → Option Exception → Text → List Text → Body
read_body name failure buf [] = at_end failure buf
read_body name failure buf (chunk ∷ chunks) =
    let longer = buf ++ chunk in
    let rest = read_body name failure longer chunks in
    if ltb (cap name) (length longer) then over_cap name longer else rest

-- the end of a hop without a redirect
unfoldable pub finish : Endpoint → ℕ → Headers → List Text → Option Exception → Fetched
finish name status headers chunks failure =
    if status == 304
    then fetched (record { status_code = 304; headers = headers; content = [] })
    else if not (leb 200 status && ltb status 300)
    then raised (http_status_error status)
    else elim (read_body name failure [] chunks) [
      | broken e ↦ raised e
      | complete body ↦ fetched (record {
        status_code = status;
        headers = filter (λ h. not (dropped_on_rebuild h)) headers;
        content = body;
      })
    ]

-- `headers.pop("If-None-Match", None)` and its like, on a change of host
unfoldable pub without_validators : Headers → Headers
unfolding remove
without_validators h = remove (str "If-Modified-Since") (remove (str "If-None-Match") h)

-- `response.headers["location"]` of a redirect
unfoldable pub redirect_target : ℕ → Headers → Option Text
unfolding get
redirect_target status headers = if is_redirect status then get (str "location") headers else none

module _ (A : Addresses) (N : Network) where
  open N use {Url, scheme, host, join, answer}

  -- A request that was sent.
  pub record Request : Type 0 where
    pub url : Url
    pub headers : Headers

  abbrev pub http_scheme : Url → Bool
  http_scheme url = text_eq (scheme url) (str "http") || text_eq (scheme url) (str "https")

  abbrev pub moved_headers : Url → Url → Headers → Headers
  moved_headers current nxt headers =
      if text_eq (host nxt) (host current) then headers else without_validators headers

  -- What a hop does: it ends the loop, or goes on at another URL.
  pub data Hop : Type 0 where
    stop : Fetched → Hop
    follow : Url → Hop

  -- The checks on a redirect, where `left` more may follow it.
  unfoldable pub redirected : (origin_private : Bool) → (left : ℕ) → Url → Hop
  redirected origin_private zero nxt = stop (raised too_many_redirects)
  redirected origin_private (suc left) nxt =
      if not (http_scheme nxt)
      then stop (raised (fetch_error (str "redirect to unsupported scheme")))
      else if not origin_private && resolves_private A left (host nxt)
      then stop (raised (private_address_error (host nxt)))
      else follow nxt

  abbrev pub answered : Endpoint → Bool → ℕ → Url → Answer → Hop
  answered name origin_private left current (raises e) = stop (raised e)
  answered name origin_private left current (streams status headers chunks failure) =
      elim (redirect_target status headers) [
        | none ↦ stop (finish name status headers chunks failure)
        | some location ↦ redirected origin_private left (join current location)
      ]

  unfoldable pub hop : Endpoint → Bool → ℕ → Url → Headers → Hop
  hop name origin_private left current headers =
      answered name origin_private left current (answer left current headers)

  abbrev pub after_hop : Request → (Url → Fetched × List Request) → Hop → Fetched × List Request
  after_hop request go_on (stop outcome) = (outcome, request ∷ [])
  after_hop request go_on (follow nxt) =
      let (outcome, requests) = go_on nxt in (outcome, request ∷ requests)

  -- The loop, with the requests that it sends, for a number of hops; behind the last one stands
  -- the `AssertionError`.
  unfoldable pub fetch_hops :
      Endpoint → (origin_private : Bool) → ℕ → Url → Headers → Fetched × List Request
  fetch_hops name origin_private zero current headers = (raised (other (str "AssertionError")), [])
  fetch_hops name origin_private (suc left) current headers =
      after_hop (record { url = current; headers = headers })
        (λ nxt. fetch_hops name origin_private left nxt (moved_headers current nxt headers))
        (hop name origin_private left current headers)

  unfoldable pub fetch_one :
      Endpoint
      → Url
      → (user_agent : Text) → (validators : Headers) → (allow_private : Bool)
      → Fetched × List Request
  fetch_one name url user_agent validators allow_private =
      let headers = update ((str "User-Agent", user_agent) ∷ []) validators in
      let origin_private = allow_private && is_private_host A (host url) in
      if not allow_private && resolves_private A (suc max_redirects) (host url)
      then (raised (private_address_error (host url)), [])
      else fetch_hops name origin_private (suc max_redirects) url headers
