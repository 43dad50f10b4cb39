-- ===== src/Policy/Inspector/Run.antt =====
-- `inspect` of policy/inspector.py: what is in the cache, the fetches that are left, the early stop,
-- and the policy.
pub mod Looking
pub mod Stopping
pub mod Choices
pub mod Consulted
use wbauth.Prelude.{
  ℕ, Bool, true, false, not, ◌&&◌, ◌||◌, Option, none, some, List, [], ◌∷◌, ◌++◌, ltb, length, any,
  if◌then◌else◌, get_or_else, is_empty,
}
use wbauth.Text.{Text, str}
use wbauth.Dict.{Dict, get, put}
use wbauth.Urls.{UrlSplit}
use wbauth.Policy.Errors.{Exception, http_status_error}
use wbauth.Policy.Types.{
  Endpoint, robots, ai_txt, llms_txt, signing_directory, endpoint_eq, endpoint_beq, RobotsResult,
  AiTxtResult, LlmsTxtResult, SigningDirectoryResult, SitePolicy, Reason,
}
use wbauth.Policy.Cache.Entries.{
  Value, parsed, absent, failed, CacheEntry, Key, Now, PolicyCache, get_entry,
}
use wbauth.Policy.Cache.Store.{StoreLaws}
use wbauth.Policy.Inspector.Private.{Addresses}
use wbauth.Policy.Inspector.Fetch.{Network}
use wbauth.Policy.Inspector.Build.{Parsed, build_policy, robots_forbids}
use wbauth.Policy.Inspector.Endpoints.{
  Item, robots_source, ai_result, llms_result, directory_result, Parsers, origin_host, wanted_of,
}
use wbauth.Policy.Inspector.Round.{Around, Findings, note_error, note_value, inspect_fetch}

-- The arguments of `inspect`. `user_agent` is an optional text; without endpoints all four are
-- consulted.
pub record Request : Type 0 where
  pub url : Text
  pub user_agent : Option Text
  pub endpoints : Option (List Text)
  pub stop_on_forbidden : Bool
  pub allow_private : Bool

-- `user_agent or DEFAULT_USER_AGENT`
abbrev pub agent_name : (default : Text) → Option Text → Text
agent_name default none = default
agent_name default (some []) = default
agent_name default (some (c ∷ ua)) = c ∷ ua

-- `missing.remove(ep)`
unfoldable pub without_first : Endpoint → List Endpoint → List Endpoint
without_first ep [] = []
without_first ep (e ∷ es) =
    let rest = without_first ep es in if endpoint_beq ep e then es else e ∷ rest

module _ {Source : Type 0} where
  abbrev pub source_of : Option (Value (Item Source)) → Option Source
  source_of (some (parsed (robots_source s))) = some s
  source_of _ = none

  abbrev pub ai_of : Option (Value (Item Source)) → Option AiTxtResult
  ai_of (some (parsed (ai_result r))) = some r
  ai_of _ = none

  abbrev pub llms_of : Option (Value (Item Source)) → Option LlmsTxtResult
  llms_of (some (parsed (llms_result r))) = some r
  llms_of _ = none

  abbrev pub directory_of : Option (Value (Item Source)) → Option SigningDirectoryResult
  directory_of (some (parsed (directory_result r))) = some r
  directory_of _ = none

  -- the dictionary of values, as `_build_policy` reads it
  unfoldable pub parsed_of : Dict Endpoint (Value (Item Source)) → Parsed Source
  unfolding get
  parsed_of raw = record {
    robots = source_of (get robots raw);
    ai_txt = ai_of (get ai_txt raw);
    llms_txt = llms_of (get llms_txt raw);
    signing_directory = directory_of (get signing_directory raw);
  }

module _ {Source : Type 0} (A : Addresses) (N : Network) (urlsplit : UrlSplit)
    (parsers : Parsers Source) (evaluate : Source → Text → Text → RobotsResult)
    (default_user_agent : Text) (L : StoreLaws Key (CacheEntry (Item Source)))
    (U : StoreLaws Key (CacheEntry (Item Source))) where
  abbrev pub Found : Type 0
  Found = Findings A N parsers L U

  -- a value of the cache
  unfoldable pub known : Endpoint → Value (Item Source) → Found → Found
  unfolding put
  known ep (absent status) found = note_error A N parsers L U ep (http_status_error status) found
  known ep (failed e) found = note_error A N parsers L U ep e found
  known ep (parsed v) found = note_value A N parsers L U ep (parsed v) found

  -- an entry of the cache, or a name that is missing
  abbrev pub look_up_entry :
      Endpoint → Option (CacheEntry (Item Source)) → List Endpoint × Found → List Endpoint × Found
  look_up_entry ep none (missing, found) = (missing ++ ep ∷ [], found)
  look_up_entry ep (some entry) (missing, found) = (missing, known ep entry.value found)

  -- the loop over the wanted endpoints
  unfoldable pub look_up :
      Now → Text → List Endpoint → List Endpoint × Found → List Endpoint × Found
  unfolding get_entry known
  look_up now host [] state = state
  look_up now host (ep ∷ eps) (missing, found) =
      let (entry, touched) = get_entry L U now host ep found.cache in
      look_up now host eps (look_up_entry ep entry (missing, record found { cache = touched }))

  abbrev pub forbids : Text → Text → Found → Bool
  forbids url ua found =
      robots_forbids urlsplit evaluate (source_of (get robots found.raw)) (get robots found.errors)
        url ua

  abbrev pub nothing_found : PolicyCache L U → Found
  nothing_found cache = record { raw = []; errors = []; cache = cache }

  -- the fetch of robots.txt before the others, and the test on it
  abbrev pub robots_first :
      Around N
      → Request
      → Text
      → Text
      → List Endpoint
      → Found
      → Option Reason × List Endpoint × Found
  robots_first around request host ua missing found =
      let rest = without_first robots missing in
      let after =
        inspect_fetch A N parsers L U around host (robots ∷ []) ua request.allow_private found in
      if forbids request.url ua after
      then (some (Reason.stop_on_forbidden rest), [], after)
      else (none, rest, after)

  -- the early stop: its reason, and what is still to be fetched
  unfoldable pub early_stop :
      Around N
      → Request
      → Text
      → Text
      → List Endpoint
      → Found
      → Option Reason × List Endpoint × Found
  unfolding get robots_forbids without_first inspect_fetch
  early_stop around request host ua missing found =
      if request.stop_on_forbidden && any (endpoint_beq robots) missing && ltb 1 (length missing)
      then robots_first around request host ua missing found
      else if request.stop_on_forbidden && forbids request.url ua found
      then (some (Reason.stop_on_forbidden []), [], found)
      else (none, missing, found)

  -- from the names that are missing to the policy
  unfoldable pub concluded :
      (first second : Around N)
      → (built_at : ℕ) → Request
      → Text
      → Text
      → List Endpoint × Found
      → SitePolicy × PolicyCache L U
  unfolding early_stop inspect_fetch parsed_of build_policy
  concluded first second built_at request host ua (missing, found) =
      let (skipped, left, found₁) = early_stop first request host ua missing found in
      let found₂ = inspect_fetch A N parsers L U second host left ua request.allow_private found₁ in
      (
        build_policy urlsplit evaluate request.url ua (parsed_of found₂.raw) found₂.errors skipped
            built_at,
        found₂.cache,
      )

  -- `inspect`; `none` is a `ValueError`
  unfoldable pub inspect :
      (first second : Around N)
      → (looked : Now) → (built_at : ℕ) → Request
      → PolicyCache L U
      → Option (SitePolicy × PolicyCache L U)
  unfolding origin_host look_up concluded
  inspect first second looked built_at request cache = elim (origin_host urlsplit request.url) [
    | none ↦ none
    | some host ↦ elim (wanted_of request.endpoints) [
      | none ↦ none
      | some wanted ↦ some (
          concluded first second built_at request host
            (agent_name default_user_agent request.user_agent)
            (look_up looked host wanted ([], nothing_found cache)))
    ]
  ]
