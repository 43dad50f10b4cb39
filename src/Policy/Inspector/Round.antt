-- ===== src/Policy/Inspector/Round.antt =====
-- `_inspect_fetch` and `_fetch_missing` of policy/inspector.py: a round of fetches, and what each
-- answer does to the values, the errors and the cache.
pub mod Apart
pub mod Whole
use wbauth.Prelude.{
  ℕ, Bool, true, false, ◌&&◌, Option, none, some, List, [], ◌∷◌, ◌++◌, ◌==◌, if◌then◌else◌,
  is_empty, filter, not,
}
use wbauth.Text.{Text, str}
use wbauth.Dict.{Dict, text_keys, get, put}
use wbauth.Policy.Errors.{
  Exception, http_status_error, asyncio_timeout_error, timeout_exception, base_exception, other,
  fetch_error, is_request_error,
}
use wbauth.Policy.Types.{Endpoint, endpoint_eq, endpoint_beq}
use wbauth.Policy.Verdict.{is_unavailable_status}
use wbauth.Policy.Cache.Entries.{
  Value, parsed, absent, failed, CacheEntry, Key, Now, Meta, seconds, present, PolicyCache,
  get_entry, get_stale, set_entry,
}
use wbauth.Policy.Cache.Store.{StoreLaws}
use wbauth.Policy.Inspector.Private.{Addresses}
use wbauth.Policy.Inspector.Fetch.{Headers, Response, Network, Fetched, raised, fetched, fetch_one}
use wbauth.Policy.Inspector.Endpoints.{
  Item, Parsers, ParseOutcome, read, fails, parse_text, endpoint_url,
}

-- the names of `dict(zip(missing, results))`
unfoldable pub distinct : List Endpoint → List Endpoint
distinct [] = []
distinct (ep ∷ eps) = ep ∷ filter (λ other_one. not (endpoint_beq ep other_one)) (distinct eps)

-- `FAILURE_TTL`
abbrev pub failure_ttl : ℕ
failure_ttl = seconds 60

-- The code around one round: `httpx.URL`, the tasks in flight of other callers with what they will
-- give, which fetches exceed their time, the text of a response, the Cache-Control that an
-- `HTTPStatusError` carries, and the clock when the cache is read and when it is written.
pub record Around (N : Network) : Type 0 where
  pub as_url : Text → N.Url
  pub in_flight : Endpoint → Option Fetched
  pub timed_out : Endpoint → Bool
  pub text : Response → Text
  pub cache_control_of : Endpoint → Option Text
  pub reads : Now
  pub writes : Now

-- `name in headers` and its value
abbrev pub header : Text → Response → Option Text
header name response = get name response.headers

-- `new or old`
abbrev pub or_old : Option Text → Option Text → Option Text
or_old new old = if present new then new else old

abbrev pub no_meta : Meta
no_meta = record {
  cache_control = none;
  etag = none;
  last_modified = none;
  raw = none;
  content_type = none;
  ttl_override = none;
  age = none;
}

abbrev pub for_failure : Meta
for_failure = record no_meta { ttl_override = some failure_ttl }

module _ {Source : Type 0} (A : Addresses) (N : Network) (parsers : Parsers Source)
    (L : StoreLaws Key (CacheEntry (Item Source)))
    (U : StoreLaws Key (CacheEntry (Item Source))) where
  -- `raw`, `errors` and the cache
  pub record Findings : Type 0 where
    pub raw : Dict Endpoint (Value (Item Source))
    pub errors : Dict Endpoint Exception
    pub cache : PolicyCache L U

  abbrev pub note_error : Endpoint → Exception → Findings → Findings
  note_error ep e found = record found { errors = put ep e found.errors }

  abbrev pub note_value : Endpoint → Value (Item Source) → Findings → Findings
  note_value ep v found = record found { raw = put ep v found.raw }

  abbrev pub store : Around N → Text → Endpoint → Value (Item Source) → Meta → Findings → Findings
  store around host ep v m found = record found {
    cache = set_entry L U around.writes host ep v m found.cache;
  }

  -- an exception of the fetch
  unfoldable pub settle_raised : Around N → Text → Endpoint → Exception → Findings → Findings
  unfolding put set_entry is_unavailable_status
  settle_raised around host ep asyncio_timeout_error found =
      store around host ep (failed timeout_exception) for_failure
        (note_error ep timeout_exception found)
  settle_raised around host ep (http_status_error status) found =
      let noted = note_error ep (http_status_error status) found in
      if is_unavailable_status status
      then store around host ep (absent status)
          (record no_meta { cache_control = around.cache_control_of ep }) noted
      else store around host ep (failed (http_status_error status)) for_failure noted
  settle_raised around host ep (base_exception name) found = note_error ep (other name) found
  settle_raised around host ep e found =
      let noted = note_error ep e found in
      if is_request_error e then store around host ep (failed e) for_failure noted else noted

  -- what `set` is given of a response
  abbrev pub response_meta : Response → Meta
  response_meta r = record no_meta {
    cache_control = header (str "cache-control") r;
    age = header (str "age") r;
    etag = header (str "etag") r;
    last_modified = header (str "last-modified") r;
  }

  -- a 304: the value that was kept is used again
  unfoldable pub settle_not_modified :
      Around N
      → Text
      → Endpoint
      → Response
      → Option (CacheEntry (Item Source))
      → Findings
      → Findings
  unfolding get put set_entry
  settle_not_modified around host ep r none found =
      note_error ep (fetch_error (str "unexpected 304 without a cached body")) found
  settle_not_modified around host ep r (some old) found =
      store around host ep old.value
        (record (response_meta r) {
          etag = or_old (header (str "etag") r) old.etag;
          last_modified = or_old (header (str "last-modified") r) old.last_modified;
          raw = old.raw;
          content_type = old.content_type;
        })
        (note_value ep old.value found)

  abbrev pub settle_parsed :
      Around N → Text → Endpoint → Response → ParseOutcome (Item Source) → Findings → Findings
  settle_parsed around host ep r (fails e) found = note_error ep e found
  settle_parsed around host ep r (read v) found =
      store around host ep (parsed v)
        (record (response_meta r) {
          raw = some (around.text r);
          content_type = header (str "content-type") r;
        })
        (note_value ep (parsed v) found)

  -- the body of the loop over what was fetched
  unfoldable pub settle :
      Around N → Text → Endpoint → Option (CacheEntry (Item Source)) → Fetched → Findings → Findings
  unfolding settle_raised settle_not_modified parse_text
  settle around host ep old (raised e) found = settle_raised around host ep e found
  settle around host ep old (fetched r) found =
      if r.status_code == 304
      then settle_not_modified around host ep r old found
      else settle_parsed around host ep r
          (parse_text parsers ep (around.text r) (header (str "content-type") r)) found

  -- the validators of an entry
  abbrev pub validator : Text → Option Text → Headers
  validator name none = []
  validator name (some v) = if is_empty v then [] else (name, v) ∷ []

  unfoldable pub validators_of : Option (CacheEntry (Item Source)) → Headers
  validators_of none = []
  validators_of (some old) =
      validator (str "If-None-Match") old.etag
      ++ validator (str "If-Modified-Since") old.last_modified

  -- `_fetch_missing` for one endpoint: a task in flight is shared, and a new one has a limit of time
  unfoldable pub fetch_shared :
      Around N → Text → (user_agent : Text) → (allow_private : Bool) → Endpoint → Headers → Fetched
  unfolding endpoint_url
  fetch_shared around host ua allow_private ep validators = elim (around.in_flight ep) [
    | some outcome ↦ outcome
    | none ↦
        if around.timed_out ep
        then raised asyncio_timeout_error
        else (fetch_one A N ep (around.as_url (endpoint_url host ep)) ua validators allow_private).0
  ]

  -- the entries that have validators, and the cache after the reads
  unfoldable pub stale_entries :
      Now
      → Text
      → List Endpoint
      → PolicyCache L U
      → Dict Endpoint (Option (CacheEntry (Item Source))) × PolicyCache L U
  unfolding get_stale put
  stale_entries now host [] cache = ([], cache)
  stale_entries now host (ep ∷ eps) cache =
      let (old, touched) = get_stale L U now host ep cache in
      let (olds, last) = stale_entries now host eps touched in (put ep old olds, last)

  abbrev pub old_of :
      Endpoint
      → Dict Endpoint (Option (CacheEntry (Item Source)))
      → Option (CacheEntry (Item Source))
  old_of ep olds = elim (get ep olds) [ none ↦ none | some old ↦ old ]

  -- the loop over the answers
  unfoldable pub settle_all :
      Around N
      → Text
      → (user_agent : Text) → (allow_private : Bool)
      → Dict Endpoint (Option (CacheEntry (Item Source)))
      → List Endpoint
      → Findings
      → Findings
  unfolding get settle fetch_shared validators_of
  settle_all around host ua allow_private olds [] found = found
  settle_all around host ua allow_private olds (ep ∷ eps) found =
      let old = old_of ep olds in
      let answer = fetch_shared around host ua allow_private ep (validators_of old) in
      settle_all around host ua allow_private olds eps (settle around host ep old answer found)

  -- `_inspect_fetch`
  unfoldable pub inspect_fetch :
      Around N
      → Text
      → List Endpoint
      → (user_agent : Text) → (allow_private : Bool) → Findings
      → Findings
  unfolding stale_entries settle_all distinct
  inspect_fetch around host missing ua allow_private found =
      let (olds, touched) = stale_entries around.reads host missing found.cache in
      settle_all around host ua allow_private olds (distinct missing)
        (record found { cache = touched })
