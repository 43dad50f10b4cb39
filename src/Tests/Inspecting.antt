-- ===== src/Tests/Inspecting.antt =====
-- An inspection of a site whose robots.txt disallows everything, and which has nothing else.
use wbauth.Prelude.{◌≡◌, ◌↔◌, Bool, true, false, refl, Option, none, some, List, [], ◌∷◌}
use wbauth.Text.{Text, str, text_eq}
use wbauth.Dict.{text_keys, get}
use wbauth.Urls.{UrlSplit, no_port}
use wbauth.Policy.Errors.{http_status_error}
use wbauth.Policy.Types.{
  Endpoint, robots, ai_txt, endpoint_eq, RobotsResult, AiTxtResult, LlmsTxtResult,
  SigningDirectoryResult, SitePolicy, forbidden,
}
use wbauth.Policy.Verdict.{
  compose, signing_section, llms_section, ai_section, applicable, robots_section,
}
use wbauth.Policy.Cache.Entries.{Now, PolicyCache, empty_cache}
use wbauth.Policy.Inspector.Fetch.{Fetched, raised, fetched}
use wbauth.Policy.Inspector.Endpoints.{Item, Parsers, read, endpoints_named}
use wbauth.Policy.Inspector.Round.{Around}
use wbauth.Policy.Inspector.Run.{Request, inspect}
use wbauth.Policy.Inspector.Run.Choices.{stop_on_forbidden_iff}
use wbauth.Policy.Inspector.Run.Consulted.{has_section, inspect-skipped}
use wbauth.Tests.Fetching.{addresses, network, first, second}
use wbauth.Tests.Memory.{memory}

abbrev split : UrlSplit
split = λ u. some (record {
  scheme = str "https";
  hostname = some (str "a.example");
  port_of = no_port;
  path = str "/x";
})

abbrev disallowing : RobotsResult
disallowing = record {
  can_fetch_url = false;
  sitemaps = [];
  raw = [];
  user_agent_evaluated = [];
  crawl_delay = none;
  content_signals = [];
}

abbrev no_ai : AiTxtResult
no_ai = record {
  identity = [];
  permissions = [];
  restrictions = [];
  attribution = [];
  contact = [];
  content_types = [];
  raw = [];
}

abbrev no_llms : LlmsTxtResult
no_llms = record { title = []; description = []; sections = []; raw = [] }

abbrev no_directory : SigningDirectoryResult
no_directory = record { present = false; keys = []; content_type_correct = false; raw = [] }

abbrev parsers : Parsers Text
parsers = record {
  parse_robots_source = λ t ct. read t;
  parse_ai_txt = λ t. read no_ai;
  parse_llms_txt = λ t. read no_llms;
  parse_signing_directory = λ t ct. read no_directory;
}

abbrev answers : Endpoint → Fetched
answers robots = fetched (record { status_code = 200; headers = []; content = str "Disallow: /" })
answers _ = raised (http_status_error 404)

abbrev noon : Now
noon = record { mono = 5; wall = 5 }

abbrev around : Around (network second)
around = record {
  as_url = λ t. first;
  in_flight = λ ep. some (answers ep);
  timed_out = λ ep. false;
  text = λ r. r.content;
  cache_control_of = λ ep. none;
  reads = noon;
  writes = noon;
}

abbrev request_for : Option (List Text) → Bool → Request
request_for names stop = record {
  url = str "https://a.example/x";
  user_agent = none;
  endpoints = names;
  stop_on_forbidden = stop;
  allow_private = false;
}

abbrev Cache : Type 0
Cache = PolicyCache {P = Item Text} memory memory

abbrev start : Cache
start = empty_cache memory memory

abbrev runs : Option (List Text) → Bool → Option (SitePolicy × Cache)
runs names stop =
    inspect addresses (network second) split parsers (λ s url ua. disallowing) (str "wbauth") memory
      memory around around noon 7 (request_for names stop) start

abbrev nothing : SitePolicy × Cache
nothing = (
  record {
    url = [];
    robots = none;
    ai_txt = none;
    llms_txt = none;
    signing_directory = none;
    verdict = forbidden;
    reasons = [];
    partial = false;
    errors = [];
    fetched_at = 0;
  },
  start,
)

abbrev or_nothing : Option (SitePolicy × Cache) → SitePolicy × Cache
or_nothing none = nothing
or_nothing (some r) = r

stopped_is_forbidden : (or_nothing (runs none true)).0.verdict ≡ forbidden
unfolding inspect text_eq compose signing_section llms_section ai_section applicable robots_section
stopped_is_forbidden = refl

whole_is_forbidden : (or_nothing (runs none false)).0.verdict ≡ forbidden
unfolding inspect text_eq compose signing_section llms_section ai_section applicable robots_section
whole_is_forbidden = refl

runs_well : (stop : Bool) → runs none stop ≡ some (or_nothing (runs none stop))
unfolding inspect text_eq
runs_well stop = refl

runs_named :
    runs (some (str "robots" ∷ [])) false
    ≡ some (or_nothing (runs (some (str "robots" ∷ [])) false))
unfolding inspect text_eq endpoints_named
runs_named = refl

stop_on_forbidden_iff_example :
    ((or_nothing (runs none true)).0.verdict ≡ forbidden)
    ↔ ((or_nothing (runs none false)).0.verdict ≡ forbidden)
stop_on_forbidden_iff_example =
    stop_on_forbidden_iff addresses (network second) split parsers (λ s url ua. disallowing)
      (str "wbauth") memory memory around noon 7 (request_for none true) start
      (or_nothing (runs none true)).1 (or_nothing (runs none false)).1
      (or_nothing (runs none true)).0 (or_nothing (runs none false)).0 refl (runs_well true)
      (runs_well false)

inspect-skipped_example :
    let p = (or_nothing (runs (some (str "robots" ∷ [])) false)).0 in
    (get ai_txt p.errors ≡ none) × (has_section ai_txt p ≡ false)
unfolding endpoints_named text_eq
inspect-skipped_example =
    inspect-skipped addresses (network second) split parsers (λ s url ua. disallowing)
      (str "wbauth") memory memory around around noon 7
      (request_for (some (str "robots" ∷ [])) false) start
      (or_nothing (runs (some (str "robots" ∷ [])) false)).1
      (or_nothing (runs (some (str "robots" ∷ [])) false)).0 (robots ∷ []) ai_txt refl refl
      runs_named
